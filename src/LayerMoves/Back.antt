-- ===== src/LayerMoves/Back.antt =====
-- A demotion of src/context/context-demotion.js and the promotion of src/context/context-promotion.js
-- that takes it back.
use wait_a_minute_plugin.Base.{
  ℕ, ◌≡◌, refl, ap, ◌∙◌, Bool, true, false, not, ◌&&◌, Option, none, some, if◌then◌else◌, In, ok,
}
use wait_a_minute_plugin.ContextItem.{
  State, created, active, compressed, stale, invalidated, archived, inherited, unknown, Layer,
  archive, Item, state_or_created,
}
use wait_a_minute_plugin.Lifecycle.{same}
use wait_a_minute_plugin.Layers.{working_layers, is_memory_layer, valid_layer, is_ranked}
use wait_a_minute_plugin.LayerMoves.{
  Event, same_layer, resolve_current_layer, state_after, promoted_item, promote_item, demoted_item,
  demote_item,
}
use wait_a_minute_plugin.LayerMoves.Promoted.{promotion_change, promote_item_made}
use wait_a_minute_plugin.LayerMoves.Demoted.{
  archiving_change, demotion_change, is_own, demote_item_made,
}
use wait_a_minute_plugin.LayerMoves.Ranked.{In-working, ranked_layer}

-- A state that a demotion to the target does not lose.
unfoldable pub is_kept : Layer → State → Bool
is_kept target s = not (same compressed s) && not (same stale s && same_layer archive target)

comes_back :
    (target : Layer) (s : State)
    → is_kept target s ≡ true
    → state_after
        (state_after s (demotion_change target s))
        (promotion_change (state_after s (demotion_change target s)))
      ≡ s
unfolding is_kept demotion_change archiving_change promotion_change same
comes_back target s h = one (same_layer archive target) s h
  where
    one :
        (b : Bool) (s : State)
        → (not (same compressed s) && not (same stale s && b)) ≡ true
        → state_after
            (state_after s (if b then archiving_change s else none))
            (promotion_change (state_after s (if b then archiving_change s else none)))
          ≡ s
    one b compressed h = cc h
    one true created h = refl
    one true active h = refl
    one true stale h = cc h
    one true invalidated h = refl
    one true archived h = refl
    one true (inherited x) h = refl
    one true (unknown x) h = refl
    one false created h = refl
    one false active h = refl
    one false stale h = refl
    one false invalidated h = refl
    one false archived h = refl
    one false (inherited x) h = refl
    one false (unknown x) h = refl

stands :
    (item : Item) (from target : Layer) (change : Option State) (now : ℕ)
    → is_memory_layer target ≡ true
    → resolve_current_layer (demoted_item item from target change now).0 ≡ some target
unfolding resolve_current_layer demoted_item valid_layer
stands item from target change now t = rw (t, resolve_current_layer) refl

-- An item of a working layer that was demoted can be promoted back to that layer, and it then has its
-- former state, unless it was COMPRESSED or, demoted to the archive, STALE.
pub promote-demote_item :
    (item x : Item) (ev : Event) (from target : Layer) (now later : ℕ)
    → resolve_current_layer item ≡ some from
    → is_own (state_or_created item.lifecycle) ≡ true
    → In from working_layers
    → is_ranked target ≡ true
    → demote_item item target now ≡ ok (x, ev)
    → (y : Item) × (ev' : Event) × (promote_item x from later ≡ ok (y, ev'))
      × (y.memory_layer ≡ some from)
      × (is_kept target (state_or_created item.lifecycle) ≡ true
          → y.lifecycle ≡ some (state_or_created item.lifecycle))
unfolding promoted_item demoted_item
promote-demote_item item x ev from target now later resolved o w t h =
    let s = state_or_created item.lifecycle in
    let (less, same_) =
      (demote_item_made item from target now (x, ev) resolved o (In-working from w).1 t).0 h in
    let made = demoted_item item from target (demotion_change target s) now in
    let x_is : x ≡ made.0 = ap (λ p. p.0) same_ in
    let back =
      promoted_item made.0 target from (promotion_change (state_or_created made.0.lifecycle))
        later in
    let at =
      (promote_item_made made.0 target from later back
          (stands item from target (demotion_change target s) now (ranked_layer target t)) t).1
        (w, less, refl) in
    (
      back.0,
      back.1,
      ap (λ i. promote_item i from later) x_is ∙ at,
      refl,
      λ k. ap some (comes_back target s k),
    )
