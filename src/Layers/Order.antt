-- ===== src/Layers/Order.antt =====
-- `sortByLayer` of src/context/context-memory-layers.js sorts, and keeps the order within a tier.
use wait_a_minute_plugin.Base.{
  ℕ, ◌≡◌, refl, ◌∙◌, Bool, true, false, not, List, [], ◌∷◌, map, arith, leb, ◌==◌, In, filter, ok,
  all_of_In, all-map, find?-none,
}
use wait_a_minute_plugin.Base.Sort.{insert, sort_by, Ordered, sort_by-Ordered, sort_by-filter}
use wait_a_minute_plugin.ContextItem.{Layer, Item}
use wait_a_minute_plugin.Layers.{
  is_memory_layer, layer_or_n3, priority, rank, is_ranked, rank_of, sorted_items, sort_by_layer,
}

abbrev pub before : Item → Item → Bool
before a b = leb (rank_of a) (rank_of b)

-- The layer of every item is absent or one of the five.
abbrev pub AllRanked : List Item → Type 0
AllRanked items = (i : Item) → In i items → is_ranked (layer_or_n3 i.memory_layer) ≡ true

ranked_is_layer : (l : Layer) → is_ranked l ≡ true → is_memory_layer l ≡ true
unfolding rank priority is_memory_layer
ranked_is_layer l h = ground arith

sorts_compared :
    (items : List Item) → AllRanked items → sorted_items items ≡ ok (sort_by before items)
unfolding sorted_items
sorts_compared items h =
    rw
      (
        find?-none (λ l. not (is_memory_layer l)) (map (λ i. layer_or_n3 i.memory_layer) items)
            (all-map (λ l. not (not (is_memory_layer l))) (λ i. layer_or_n3 i.memory_layer) items
              ∙ all_of_In (λ i. not (not (is_memory_layer (layer_or_n3 i.memory_layer)))) items
                  λ i m. rw (ranked_is_layer (layer_or_n3 i.memory_layer) (h i m)) refl),
        all-map is_ranked (λ i. layer_or_n3 i.memory_layer) items,
        all_of_In (λ i. is_ranked (layer_or_n3 i.memory_layer)) items h,
        sorted_items,
      )
      refl

sorts : (items : List Item) → AllRanked items → sort_by_layer items ≡ ok (sort_by before items)
unfolding sort_by_layer sort_by insert
sorts [] h = refl
sorts (item ∷ []) h = refl
sorts (first ∷ second ∷ items) h = sorts_compared (first ∷ second ∷ items) h

before_total : (x y : Item) → before x y ≡ false → before y x ≡ true
before_total x y h = ground arith

before_trans : (x y z : Item) → before x y ≡ true → before y z ≡ true → before x z ≡ true
before_trans x y z h k = ground arith

-- Items whose layer is absent or one of the five are sorted by the priority of the layer, and the
-- items of one priority are the same as before and in the same order.
pub sort_by_layer-Ordered :
    (items : List Item)
    → AllRanked items
    → (sorted : List Item) × (sort_by_layer items ≡ ok sorted)
      × Ordered before sorted
      × ((k : ℕ) → filter (λ i. rank_of i == k) sorted ≡ filter (λ i. rank_of i == k) items)
sort_by_layer-Ordered items h = (
  sort_by before items,
  sorts items h,
  sort_by-Ordered before before_total before_trans items,
  λ k. sort_by-filter before (λ i. rank_of i == k) items λ x y a b. ground arith,
)
