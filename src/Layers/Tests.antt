-- ===== src/Layers/Tests.antt =====
-- Runs of the memory layers, and their theorems at a few items.
use wait_a_minute_plugin.Lifecycle.{same}
use wait_a_minute_plugin.Base.{
  ℕ, zero, suc, String, ◌≡◌, refl, inl, inr, Option, none, some, List, [], ◌∷◌, ◌==◌, filter, ok,
  throw,
}
use wait_a_minute_plugin.Base.Sort.{Ordered, sort_by, insert, take}
use wait_a_minute_plugin.ContextItem.{
  Layer, n0, n1, n2, n3, archive, inherited_layer, fact, Item, stale,
}
use wait_a_minute_plugin.Layers.{
  assign_layer, rank_of, sort_by_layer, group_by_layer, select_evictions, archive_candidates,
  no_group, valid_layer, category_default_layer, sorted_items, is_memory_layer, rank, priority,
  group_into, push_into, surplus_of, sooner,
}
use wait_a_minute_plugin.Layers.Order.{before, AllRanked, sort_by_layer-Ordered}
use wait_a_minute_plugin.Layers.Grouped.{is_in, AllGrouped, group_by_layer-filter}
use wait_a_minute_plugin.Layers.Evicted.{Goes, select_evictions-Goes}

abbrev item : String → Option Layer → Item
item id layer = record {
  id = id;
  kind = none;
  category = some fact;
  lifecycle = some stale;
  lifecycle_history = none;
  memory_layer = layer;
  metadata_layer = none;
  marks = record { promoted = none; demoted = none; archived_at = none };
  importance = none;
  timestamp = some 5;
  updated_at = 5;
}

abbrev goal : Item
goal = item "goal" (some n0)

abbrev plain : Item
plain = item "plain" none

abbrev two_items : List Item
two_items = plain ∷ goal ∷ []

by_category : (assign_layer plain none).memory_layer ≡ some n1
unfolding assign_layer valid_layer category_default_layer
by_category = refl

goal_first : sort_by_layer two_items ≡ ok (goal ∷ plain ∷ [])
unfolding sort_by_layer sorted_items is_memory_layer rank priority sort_by insert rank_of
goal_first = refl

inherited_name :
    group_by_layer (item "x" (some (inherited_layer "toString")) ∷ [])
    ≡ throw (no_group (inherited_layer "toString"))
unfolding group_by_layer group_into push_into valid_layer is_memory_layer
inherited_name = refl

all_stale : archive_candidates two_items ≡ two_items
unfolding archive_candidates same
all_stale = refl

two_ranked : AllRanked two_items
unfolding rank priority
two_ranked i m = elim m [
  | inl e ↦ rw e refl
  | inr k ↦ elim k [ inl e ↦ rw e refl | inr none_ ↦ absurd none_ ]
]

two_grouped : AllGrouped two_items
unfolding rank priority valid_layer is_memory_layer
two_grouped i m = elim m [
  | inl e ↦ rw e refl
  | inr k ↦ elim k [ inl e ↦ rw e refl | inr none_ ↦ absurd none_ ]
]

sort_by_layer-Ordered_example :
    (sorted : List Item) × (sort_by_layer two_items ≡ ok sorted)
    × Ordered before sorted
    × ((k : ℕ) → filter (λ i. rank_of i == k) sorted ≡ filter (λ i. rank_of i == k) two_items)
sort_by_layer-Ordered_example = sort_by_layer-Ordered two_items two_ranked

group_by_layer-filter_here :
    group_by_layer two_items
    ≡ ok (record {
      in_n0 = filter (is_in n0) two_items;
      in_n1 = filter (is_in n1) two_items;
      in_n2 = filter (is_in n2) two_items;
      in_n3 = filter (is_in n3) two_items;
      in_archive = filter (is_in archive) two_items;
    })
group_by_layer-filter_here = group_by_layer-filter two_items two_grouped

-- One item more than the first tier holds, each more important than the next.
abbrev weighted : ℕ → Item
weighted n = record goal { importance = some n }

abbrev countdown : ℕ → List Item
countdown zero = []
countdown (suc n) = weighted (suc n) ∷ countdown n

abbrev full_tier : List Item
full_tier = countdown 17

-- The last one is the least important.
one_too_many : select_evictions full_tier ≡ ok (weighted 1 ∷ [])
unfolding select_evictions group_by_layer group_into push_into valid_layer is_memory_layer
    surplus_of sooner sort_by insert take
one_too_many = refl

countdown-AllGrouped : (n : ℕ) → AllGrouped (countdown n)
unfolding rank priority valid_layer is_memory_layer
countdown-AllGrouped zero i m = absurd m
countdown-AllGrouped (suc n) i m = elim m [ inl e ↦ rw e refl | inr k ↦ countdown-AllGrouped n i k ]

select_evictions-Goes_example :
    (es : List Item) × (select_evictions full_tier ≡ ok es)
    × Goes 16 (filter (is_in n0) full_tier) (filter (is_in n0) es)
    × Goes 64 (filter (is_in n1) full_tier) (filter (is_in n1) es)
    × Goes 256 (filter (is_in n2) full_tier) (filter (is_in n2) es)
    × Goes 128 (filter (is_in n3) full_tier) (filter (is_in n3) es)
    × (filter (is_in archive) es ≡ [])
select_evictions-Goes_example = select_evictions-Goes full_tier (countdown-AllGrouped 17)
