-- ===== src/LayerMoves/Ranked.antt =====
-- The places of the layers, and the moves of the lifecycle that src/context/context-promotion.js and
-- src/context/context-demotion.js ask for.
use wait_a_minute_plugin.Base.{
  ℕ, String, ◌≡◌, refl, inl, inr, true, false, none, some, arith, In, any, ok,
}
use wait_a_minute_plugin.ContextItem.{
  State, Layer, n0, n1, n2, n3, archive, inherited_layer, unknown_layer, Item, state_or_created,
}
use wait_a_minute_plugin.Lifecycle.{can_transition}
use wait_a_minute_plugin.Lifecycle.Edges.{Leads, moved_item, transition-Leads, Leads-allowed}
use wait_a_minute_plugin.Layers.{
  working_layers, is_memory_layer, priority, rank, rank_or_zero, is_ranked,
}
use wait_a_minute_plugin.LayerMoves.{same_layer, if_permitted, because}

-- The place of a layer: N0 is 0 and ARCHIVE is 4.
abbrev pub place : Layer → ℕ
place l = rank_or_zero (rank l)

pub ranked_priority : (l : Layer) → is_ranked l ≡ true → priority l ≡ ok (some (place l))
unfolding rank priority
ranked_priority n0 h = refl
ranked_priority n1 h = refl
ranked_priority n2 h = refl
ranked_priority n3 h = refl
ranked_priority archive h = refl
ranked_priority (inherited_layer s) h = cc h
ranked_priority (unknown_layer s) h = cc h

pub ranked_layer : (l : Layer) → is_ranked l ≡ true → is_memory_layer l ≡ true
unfolding rank priority is_memory_layer
ranked_layer l h = ground arith

pub working : (l : Layer) → any (λ k. same_layer k l) working_layers ≡ true → In l working_layers
unfolding same_layer
working n0 h = inl refl
working n1 h = inr (inl refl)
working n2 h = inr (inr (inl refl))
working n3 h = inr (inr (inr (inl refl)))
working archive h = cc h
working (inherited_layer s) h = cc h
working (unknown_layer s) h = cc h

pub In-working :
    (l : Layer)
    → In l working_layers
    → (any (λ k. same_layer k l) working_layers ≡ true) × (is_ranked l ≡ true)
unfolding same_layer rank priority
In-working l m = elim m [
  | inl e ↦ rw e (refl, refl)
  | inr m1 ↦ elim m1 [
    | inl e ↦ rw e (refl, refl)
    | inr m2 ↦ elim m2 [
      | inl e ↦ rw e (refl, refl)
      | inr m3 ↦ elim m3 [ inl e ↦ rw e (refl, refl) | inr none_ ↦ absurd none_ ]
    ]
  ]
]

-- A permitted move of the lifecycle is made.
pub permitted :
    (item : Item) (next : State) (reason : String) (now : ℕ)
    → Leads (state_or_created item.lifecycle) next
    → if_permitted item next reason now ≡ ok (some next)
unfolding if_permitted
permitted item next reason now e =
    rw
      (
        Leads-allowed e,
        (transition-Leads item (moved_item item next (because reason now) now) next
              (because reason now) now).1
            (e, refl),
        if_permitted,
      )
      refl

pub not_permitted :
    (item : Item) (next : State) (reason : String) (now : ℕ)
    → can_transition (state_or_created item.lifecycle) next ≡ ok false
    → if_permitted item next reason now ≡ ok none
unfolding if_permitted
not_permitted item next reason now e = rw (e, if_permitted) refl
