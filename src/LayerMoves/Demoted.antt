-- ===== src/LayerMoves/Demoted.antt =====
-- When src/context/context-demotion.js moves an item, and what it makes of it.
use wait_a_minute_plugin.Base.{
  ℕ, ◌<◌, ◌≡◌, refl, sym, ap, ◌∙◌, subst, ◌↔◌, inl, inr, Bool, true, false, not, ◌||◌, Option, none,
  some, arith, leb, if◌then◌else◌, leb→le, Bool-cases, any, ok, throw,
}
use wait_a_minute_plugin.ContextItem.{
  State, created, active, compressed, stale, invalidated, archived, inherited, unknown, Layer, n0,
  archive, Item, state_or_created,
}
use wait_a_minute_plugin.Lifecycle.{
  same, can_transition, is_lifecycle_state, terminal_states, transitions,
}
use wait_a_minute_plugin.Lifecycle.Edges.{Leads, compress, compress_stale}
use wait_a_minute_plugin.Layers.{is_ranked}
use wait_a_minute_plugin.LayerMoves.{
  Event, same_layer, resolve_current_layer, if_permitted, demoted_item, demote_from, demote_item,
  not_a_demotion, state_after, change_from,
}
use wait_a_minute_plugin.LayerMoves.Ranked.{
  not_permitted, permitted, place, ranked_layer, ranked_priority,
}
use wait_a_minute_plugin.LayerMoves.After.{after_demotion, archiving_time, stored_as, storing}

-- A demotion into the archive compresses an item that is in use or stale.
unfoldable pub archiving_change : State → Option State
archiving_change active = some compressed
archiving_change stale = some compressed
archiving_change created = none
archiving_change compressed = none
archiving_change invalidated = none
archiving_change archived = none
archiving_change (inherited _) = none
archiving_change (unknown _) = none

unfoldable pub demotion_change : Layer → State → Option State
demotion_change target s = if same_layer archive target then archiving_change s else none

-- The name of the state is not one that every object inherits.
abbrev pub is_own : State → Bool
is_own s = elim s [ inherited _ ↦ false | _ ↦ true ]

archiving_effect :
    (item : Item) (from target : Layer) (now : ℕ) (s : State)
    → is_own s ≡ true
    → state_or_created item.lifecycle ≡ s
    → (if any (λ t. same t s) terminal_states
        then ok (demoted_item item from target none now)
        else elim (if_permitted item compressed "demotion-to-archive" now) [
          | throw e ↦ throw e
          | ok change ↦ ok (demoted_item item from target change now)
        ])
      ≡ ok (demoted_item item from target (archiving_change s) now)
unfolding same archiving_change can_transition is_lifecycle_state transitions
archiving_effect item from target now active o e =
    rw
      (permitted item compressed "demotion-to-archive" now
        (subst (λ z. Leads z compressed) (sym e) compress))
      refl
archiving_effect item from target now stale o e =
    rw
      (permitted item compressed "demotion-to-archive" now
        (subst (λ z. Leads z compressed) (sym e) compress_stale))
      refl
archiving_effect item from target now created o e =
    rw
      (not_permitted item compressed "demotion-to-archive" now
        (ap (λ z. can_transition z compressed) e))
      refl
archiving_effect item from target now compressed o e =
    rw
      (not_permitted item compressed "demotion-to-archive" now
        (ap (λ z. can_transition z compressed) e))
      refl
archiving_effect item from target now (unknown x) o e =
    rw
      (not_permitted item compressed "demotion-to-archive" now
        (ap (λ z. can_transition z compressed) e))
      refl
archiving_effect item from target now invalidated o e = refl
archiving_effect item from target now archived o e = refl
archiving_effect item from target now (inherited x) o e = cc o

demotion_effect :
    (item : Item) (from target : Layer) (now : ℕ)
    → is_own (state_or_created item.lifecycle) ≡ true
    → (if not (same_layer archive target)
          || any (λ t. same t (state_or_created item.lifecycle)) terminal_states
        then ok (demoted_item item from target none now)
        else elim (if_permitted item compressed "demotion-to-archive" now) [
          | throw e ↦ throw e
          | ok change ↦ ok (demoted_item item from target change now)
        ])
      ≡ ok (
          demoted_item item from target
            (demotion_change target (state_or_created item.lifecycle))
            now)
unfolding demotion_change
demotion_effect item from target now o = elim (Bool-cases (same_layer archive target)) [
  | inl e ↦ rw e (archiving_effect item from target now (state_or_created item.lifecycle) o refl)
  | inr e ↦ rw e refl
]

pub demote_from_ranked :
    (item : Item) (from target : Layer) (now : ℕ)
    → is_own (state_or_created item.lifecycle) ≡ true
    → is_ranked from ≡ true
    → is_ranked target ≡ true
    → demote_from (some from) item target now ≡ (
        if leb (place target) (place from)
        then throw (not_a_demotion from target)
        else ok (
            demoted_item item from target
              (demotion_change target (state_or_created item.lifecycle))
              now))
unfolding demote_from
demote_from_ranked item from target now o f t =
    rw
      (
        ranked_priority from f,
        ranked_priority target t,
        demotion_effect item from target now o,
        demote_from,
      )
      refl

pub demote_item_made :
    (item : Item) (from target : Layer) (now : ℕ) (r : Item × Event)
    → resolve_current_layer item ≡ some from
    → is_own (state_or_created item.lifecycle) ≡ true
    → is_ranked from ≡ true
    → is_ranked target ≡ true
    → (demote_item item target now ≡ ok r) ↔ (
        (place from < place target)
        × (r
            ≡ demoted_item item from target
                (demotion_change target (state_or_created item.lifecycle))
                now))
unfolding demote_item
demote_item_made item from target now r resolved o f t =
    rw (ranked_layer target t, resolved, demote_from_ranked item from target now o f t, demote_item)
      (one (leb (place target) (place from)) refl)
  where
    one :
        (b : Bool)
        → leb (place target) (place from) ≡ b
        → ((if b
              then throw (not_a_demotion from target)
              else ok (
                  demoted_item item from target
                    (demotion_change target (state_or_created item.lifecycle))
                    now))
            ≡ ok r)
          ↔ ((place from < place target)
              × (r
                  ≡ demoted_item item from target
                      (demotion_change target (state_or_created item.lifecycle))
                      now))
    one true e = (λ h. cc h, λ p. absurd (omega (arith, leb→le (place target) (place from) e, p.0)))
    one false e = (λ h. (ground arith, ground arith), λ p. ap ok (sym p.1))

is_stored :
    (target : Layer) (s : State) → state_after s (demotion_change target s) ≡ stored_as target s
unfolding demotion_change archiving_change same_layer
is_stored archive created = refl
is_stored archive active = refl
is_stored archive compressed = refl
is_stored archive stale = refl
is_stored archive invalidated = refl
is_stored archive archived = refl
is_stored archive (inherited x) = refl
is_stored archive (unknown x) = refl
is_stored _ s = refl

is_storing :
    (target : Layer) (s : State) → change_from s (demotion_change target s) ≡ storing target s
unfolding demotion_change archiving_change same_layer
is_storing archive created = refl
is_storing archive active = refl
is_storing archive compressed = refl
is_storing archive stale = refl
is_storing archive invalidated = refl
is_storing archive archived = refl
is_storing archive (inherited x) = refl
is_storing archive (unknown x) = refl
is_storing _ s = refl

is_timed :
    (target : Layer) (old : Option ℕ) (now : ℕ)
    → (if same_layer archive target then some now else old) ≡ archiving_time target old now
unfolding same_layer
is_timed n0 old now = refl
is_timed _ old now = refl

demoted_item-after_demotion :
    (item : Item) (from target : Layer) (now : ℕ)
    → demoted_item item from target (demotion_change target (state_or_created item.lifecycle)) now
      ≡ after_demotion item from target now
unfolding demoted_item
demoted_item-after_demotion item from target now =
    rw
      (
        is_stored target (state_or_created item.lifecycle),
        is_storing target (state_or_created item.lifecycle),
        is_timed target item.marks.archived_at now,
      )
      refl

-- An item in one of the five layers is demoted exactly to those of lower priority, where the target is
-- one of the five and the state is no name that every object inherits. The new item stands in the
-- target, its state is kept, but COMPRESSED where it was ACTIVE or STALE and goes to the archive, its
-- history ends with the move, which names both layers, the change of state if there is one and the
-- time, its metadata notes the old layer and the time, and that of the archiving if the target is the
-- archive, the time of the update is set, and its other fields are unchanged. The event names the same
-- layers, change and time.
pub demote_item_iff :
    (item : Item) (from target : Layer) (now : ℕ) (r : Item × Event)
    → resolve_current_layer item ≡ some from
    → is_own (state_or_created item.lifecycle) ≡ true
    → is_ranked from ≡ true
    → is_ranked target ≡ true
    → (demote_item item target now ≡ ok r)
      ↔ ((place from < place target) × (r ≡ after_demotion item from target now))
demote_item_iff item from target now r resolved o f t =
    let (made, back) = demote_item_made item from target now r resolved o f t in
    (
      λ h.
          let (less, same_) = made h in
          (less, same_ ∙ demoted_item-after_demotion item from target now),
      λ (less, same_). back (less, same_ ∙ sym (demoted_item-after_demotion item from target now)),
    )
