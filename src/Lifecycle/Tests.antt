-- ===== src/Lifecycle/Tests.antt =====
-- Runs of the lifecycle, and its theorems at a new item.
use wait_a_minute_plugin.Base.{String, ◌≡◌, refl, ◌↔◌, true, false, none, some, [], ◌∷◌, ok, throw}
use wait_a_minute_plugin.ContextItem.{
  Item, changed, created, active, archived, inherited, state_or_created, history_or_none,
}
use wait_a_minute_plugin.Lifecycle.{
  Meta, change_entry, transition, changed_item, is_usable, is_terminal, can_transition,
  no_transition_list, illegal_transition, is_lifecycle_state, transitions, same,
}
use wait_a_minute_plugin.Lifecycle.Edges.{Leads, moved_item, transition-Leads}
use wait_a_minute_plugin.Lifecycle.Traced.{unmoved, moved, Trail, Moved-Trail, Moved-terminal}

abbrev note : Item
note = record {
  id = "i1";
  kind = none;
  category = none;
  lifecycle = none;
  lifecycle_history = none;
  memory_layer = none;
  metadata_layer = none;
  marks = record { promoted = none; demoted = none; archived_at = none };
  importance = none;
  timestamp = some 5;
  updated_at = 5;
}

-- Metadata that only gives a reason.
abbrev because : String → Meta
because text = record {
  from = none;
  to = none;
  ts = none;
  reason = some text;
  actor = none;
  timestamp = none;
}

abbrev used_note : Item
used_note = moved_item note active (because "read") 9

activated : transition note active (because "read") 9 ≡ ok used_note
unfolding transition is_lifecycle_state can_transition transitions same changed_item change_entry
activated = refl

inherited_name :
    can_transition (inherited "toString") active ≡ throw (no_transition_list (inherited "toString"))
unfolding can_transition is_lifecycle_state transitions
inherited_name = refl

-- Metadata that brings a state and a time replaces those of the move in the history.
abbrev overriding : Meta
overriding = record (because "read") { from = some archived; ts = some 3 }

overridden :
    transition note active overriding 9
    ≡ ok (record note {
      lifecycle = some active;
      lifecycle_history = some (
          changed (record {
            from = archived;
            to = active;
            ts = 3;
            reason = some "read";
            actor = none;
            timestamp = none;
          })
          ∷ []);
      updated_at = 9;
    })
unfolding transition is_lifecycle_state can_transition transitions same changed_item change_entry
overridden = refl

no_way_back :
    transition used_note created (because "again") 10 ≡ throw (illegal_transition active created)
unfolding transition is_lifecycle_state changed_item can_transition transitions same
no_way_back = refl

transition-Leads_example :
    (transition note active (because "read") 9 ≡ ok used_note)
    ↔ (Leads created active × (used_note ≡ moved_item note active (because "read") 9))
transition-Leads_example = transition-Leads note used_note active (because "read") 9

Moved-Trail_example :
    Trail created
      (history_or_none used_note.lifecycle_history)
      (state_or_created used_note.lifecycle)
Moved-Trail_example =
    Moved-Trail note used_note refl (moved active (because "read") 9 unmoved refl refl activated)

abbrev old_note : Item
old_note = record note { lifecycle = some archived }

ended : is_terminal archived ≡ true
unfolding is_terminal same
ended = refl

Moved-terminal_here : (old_note ≡ old_note) × (is_usable old_note ≡ false)
Moved-terminal_here = Moved-terminal old_note old_note ended unmoved
