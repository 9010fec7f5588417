-- ===== src/LayerMoves/Promoted.antt =====
-- When src/context/context-promotion.js moves an item, and what it makes of it.
use wait_a_minute_plugin.Base.{
  ℕ, ◌<◌, ◌≡◌, refl, sym, ap, ◌∙◌, subst, ◌↔◌, Bool, true, false, not, Option, none, some, arith,
  leb, if◌then◌else◌, leb→le, In, any, ok, throw,
}
use wait_a_minute_plugin.ContextItem.{
  State, created, active, compressed, stale, invalidated, archived, inherited, unknown, Layer, Item,
  state_or_created,
}
use wait_a_minute_plugin.Lifecycle.{same}
use wait_a_minute_plugin.Lifecycle.Edges.{Leads, restore}
use wait_a_minute_plugin.Layers.{working_layers, is_memory_layer, is_ranked}
use wait_a_minute_plugin.LayerMoves.{
  same_layer, resolve_current_layer, if_permitted, promoted_item, promote_from, promote_item,
  not_a_promotion, Event, state_after, change_from,
}
use wait_a_minute_plugin.LayerMoves.Ranked.{
  In-working, permitted, place, ranked_layer, ranked_priority, working,
}
use wait_a_minute_plugin.LayerMoves.After.{after_promotion, waking, woken}

-- A promotion activates a compressed item.
unfoldable pub promotion_change : State → Option State
promotion_change compressed = some active
promotion_change created = none
promotion_change active = none
promotion_change stale = none
promotion_change invalidated = none
promotion_change archived = none
promotion_change (inherited _) = none
promotion_change (unknown _) = none

promotion_effect :
    (item : Item) (from target : Layer) (now : ℕ) (s : State)
    → state_or_created item.lifecycle ≡ s
    → (if not (same compressed s)
        then ok (promoted_item item from target none now)
        else elim (if_permitted item active "promotion-from-compressed" now) [
          | throw e ↦ throw e
          | ok change ↦ ok (promoted_item item from target change now)
        ])
      ≡ ok (promoted_item item from target (promotion_change s) now)
unfolding same promotion_change
promotion_effect item from target now compressed e =
    rw
      (permitted item active "promotion-from-compressed" now
        (subst (λ z. Leads z active) (sym e) restore))
      refl
promotion_effect item from target now created e = refl
promotion_effect item from target now active e = refl
promotion_effect item from target now stale e = refl
promotion_effect item from target now invalidated e = refl
promotion_effect item from target now archived e = refl
promotion_effect item from target now (inherited x) e = refl
promotion_effect item from target now (unknown x) e = refl

promote_from_ranked :
    (item : Item) (from target : Layer) (now : ℕ)
    → is_ranked from ≡ true
    → is_ranked target ≡ true
    → promote_from (some from) item target now ≡ (
        if leb (place from) (place target)
        then throw (not_a_promotion from target)
        else ok (
            promoted_item item from target
              (promotion_change (state_or_created item.lifecycle))
              now))
unfolding promote_from
promote_from_ranked item from target now f t =
    rw
      (
        ranked_priority from f,
        ranked_priority target t,
        promotion_effect item from target now (state_or_created item.lifecycle) refl,
        promote_from,
      )
      refl

decided :
    (from target : Layer) (r made : Item × Event)
    → ((if leb (place from) (place target) then throw (not_a_promotion from target) else ok made)
        ≡ ok r)
      ↔ ((place target < place from) × (r ≡ made))
decided from target r made = one (leb (place from) (place target)) refl
  where
    one :
        (b : Bool)
        → leb (place from) (place target) ≡ b
        → ((if b then throw (not_a_promotion from target) else ok made) ≡ ok r)
          ↔ ((place target < place from) × (r ≡ made))
    one true e = (λ h. cc h, λ p. absurd (omega (arith, leb→le (place from) (place target) e, p.0)))
    one false e = (λ h. (ground arith, ground arith), λ p. ap ok (sym p.1))

pub promote_item_made :
    (item : Item) (from target : Layer) (now : ℕ) (r : Item × Event)
    → resolve_current_layer item ≡ some from
    → is_ranked from ≡ true
    → (promote_item item target now ≡ ok r) ↔ (
        In target working_layers
        × (place target < place from)
        × (r
            ≡ promoted_item item from target
                (promotion_change (state_or_created item.lifecycle))
                now))
unfolding promote_item
promote_item_made item from target now r resolved f = (
  λ h.
      let (a, b) = checks h in
      let at = working target b in
      let e : promote_from (resolve_current_layer item) item target now ≡ ok r = rw (a, b) at h in
      let e' = ap (λ o. promote_from o item target now) (sym resolved) ∙ e in
      let moved = sym (promote_from_ranked item from target now f (In-working target at).1) ∙ e' in
      let (less, same_) = (decided from target r _).0 moved in (at, less, same_),
  λ (at, less, same_).
      let (b, t) = In-working target at in
      rw
        (
          ranked_layer target t,
          b,
          resolved,
          promote_from_ranked item from target now f t,
          promote_item,
        )
        ((decided from target r _).1 (less, same_)),
)
  where
    checks :
        promote_item item target now ≡ ok r
        → (is_memory_layer target ≡ true) × (any (λ l. same_layer l target) working_layers ≡ true)
    checks h = ground arith

is_woken : (s : State) → state_after s (promotion_change s) ≡ woken s
unfolding promotion_change
is_woken created = refl
is_woken active = refl
is_woken compressed = refl
is_woken stale = refl
is_woken invalidated = refl
is_woken archived = refl
is_woken (inherited x) = refl
is_woken (unknown x) = refl

is_waking : (s : State) → change_from s (promotion_change s) ≡ waking s
unfolding promotion_change
is_waking created = refl
is_waking active = refl
is_waking compressed = refl
is_waking stale = refl
is_waking invalidated = refl
is_waking archived = refl
is_waking (inherited x) = refl
is_waking (unknown x) = refl

promoted_item-after_promotion :
    (item : Item) (from target : Layer) (now : ℕ)
    → promoted_item item from target (promotion_change (state_or_created item.lifecycle)) now
      ≡ after_promotion item from target now
unfolding promoted_item
promoted_item-after_promotion item from target now =
    rw (is_woken (state_or_created item.lifecycle), is_waking (state_or_created item.lifecycle))
      refl

-- An item in one of the five layers is promoted exactly to the working layers of higher priority. The
-- new item stands in the target, its state is kept, but ACTIVE where it was COMPRESSED, its history
-- ends with the move, which names both layers, the change of state if there is one and the time, its
-- metadata notes the old layer and the time, the time of the update is set, and its other fields are
-- unchanged. The event names the same layers, change and time.
pub promote_item_iff :
    (item : Item) (from target : Layer) (now : ℕ) (r : Item × Event)
    → resolve_current_layer item ≡ some from
    → is_ranked from ≡ true
    → (promote_item item target now ≡ ok r) ↔ (
        In target working_layers
        × (place target < place from)
        × (r ≡ after_promotion item from target now))
promote_item_iff item from target now r resolved f =
    let (made, back) = promote_item_made item from target now r resolved f in
    (
      λ h.
          let (at, less, same_) = made h in
          (at, less, same_ ∙ promoted_item-after_promotion item from target now),
      λ (at, less, same_).
          back (at, less, same_ ∙ sym (promoted_item-after_promotion item from target now)),
    )
