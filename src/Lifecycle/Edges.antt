-- ===== src/Lifecycle/Edges.antt =====
-- The transition table of src/context/context-lifecycle.js against a relation: which states an item
-- can move between, and what a move writes.
use wait_a_minute_plugin.Base.{
  ℕ, ◌≡◌, refl, sym, ◌∙◌, ◌↔◌, true, Option, none, some, [], ◌∷◌, ◌++◌, arith, ok,
}
use wait_a_minute_plugin.ContextItem.{
  State, created, active, compressed, stale, invalidated, archived, Item, changed, history_or_none,
  state_or_created,
}
use wait_a_minute_plugin.Lifecycle.{
  Meta, spread_over, change_entry, transitions, same, is_lifecycle_state, can_transition,
  changed_item, transition,
}

-- An item can be ended from every state that is not an end, goes stale from every other of these,
-- comes back to use, and is compressed from use or from being stale.
pub data Leads : State → State → Type 0 where
  start : Leads created active
  age_new : Leads created stale
  refute_new : Leads created invalidated
  archive_new : Leads created archived
  compress : Leads active compressed
  age : Leads active stale
  refute : Leads active invalidated
  store : Leads active archived
  restore : Leads compressed active
  age_compressed : Leads compressed stale
  refute_compressed : Leads compressed invalidated
  store_compressed : Leads compressed archived
  refresh : Leads stale active
  refute_stale : Leads stale invalidated
  store_stale : Leads stale archived
  compress_stale : Leads stale compressed

ruleset edges = (
  start, age_new, refute_new, archive_new, compress, age, refute, store, restore, age_compressed,
  refute_compressed, store_compressed, refresh, refute_stale, store_stale, compress_stale,
)

pub Leads-allowed : {a b : State} → Leads a b → can_transition a b ≡ ok true
unfolding can_transition is_lifecycle_state transitions same
Leads-allowed start = refl
Leads-allowed _ = refl

allowed-Leads : (a b : State) → can_transition a b ≡ ok true → Leads a b
unfolding can_transition is_lifecycle_state transitions same
allowed-Leads a b h = grind (arith, edges)

known : {a b : State} → Leads a b → (is_lifecycle_state a ≡ true) × (is_lifecycle_state b ≡ true)
unfolding is_lifecycle_state
known start = (refl, refl)
known _ = (refl, refl)

abbrev pub given {ℓ} : {A : Type ℓ} → Option A → A → A
given none d = d
given (some x) d = x

-- The item after a move: its state, one entry more in its history, and the time of the update. The
-- entry has the state it came from and the one it went to and the time, each unless the metadata brings
-- its own, and the rest of the metadata.
abbrev pub moved_item : Item → State → Meta → ℕ → Item
moved_item item next meta now = record {
  id = item.id;
  kind = item.kind;
  category = item.category;
  lifecycle = some next;
  lifecycle_history = some (
      history_or_none item.lifecycle_history
      ++ changed (record {
        from = given meta.from (state_or_created item.lifecycle);
        to = given meta.to next;
        ts = given meta.ts now;
        reason = meta.reason;
        actor = meta.actor;
        timestamp = meta.timestamp;
      })
        ∷ []);
  memory_layer = item.memory_layer;
  metadata_layer = item.metadata_layer;
  marks = item.marks;
  importance = item.importance;
  timestamp = item.timestamp;
  updated_at = now;
}

spread-given : {A : Type 0} (d : A) (o : Option A) → spread_over d o ≡ given o d
spread-given d none = refl
spread-given d (some x) = refl

changed_item-moved_item :
    (item : Item) (next : State) (meta : Meta) (now : ℕ)
    → changed_item item (state_or_created item.lifecycle) next meta now
      ≡ moved_item item next meta now
unfolding changed_item change_entry
changed_item-moved_item item next meta now =
    rw
      (
        spread-given (state_or_created item.lifecycle) meta.from,
        spread-given next meta.to,
        spread-given now meta.ts,
      )
      refl

changes :
    (item item' : Item) (next : State) (meta : Meta) (now : ℕ)
    → (transition item next meta now ≡ ok item') ↔ (
        Leads (state_or_created item.lifecycle) next
        × (item' ≡ changed_item item (state_or_created item.lifecycle) next meta now))
unfolding transition
changes item item' next meta now = (
  λ h. (allowed-Leads _ _ (ground arith), ground arith),
  λ h. ground (arith, Leads-allowed h.0, (known h.0).0, (known h.0).1),
)

-- A transition gives a new item exactly when the lifecycle has the edge from the item's state
-- (CREATED where none is recorded). The new item has the new state, the time of the update and one entry
-- more at the end of its history, and all its other fields are unchanged. The entry names both states
-- and the time, except where the metadata brings its own, and carries the rest of the metadata.
pub transition-Leads :
    (item item' : Item) (next : State) (meta : Meta) (now : ℕ)
    → (transition item next meta now ≡ ok item')
      ↔ (Leads (state_or_created item.lifecycle) next × (item' ≡ moved_item item next meta now))
transition-Leads item item' next meta now =
    let (made, back) = changes item item' next meta now in
    (
      λ h. let (edge, same_) = made h in (edge, same_ ∙ changed_item-moved_item item next meta now),
      λ (edge, same_). back (edge, same_ ∙ sym (changed_item-moved_item item next meta now)),
    )
