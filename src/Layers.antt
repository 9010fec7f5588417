-- ===== src/Layers.antt =====
-- src/context/context-memory-layers.js: the tiers of context items. An inherited name passes for a
-- layer, but has no priority and no group.
pub mod Order
pub mod Grouped
pub mod Sooner
pub mod Evicted
mod Tests
use wait_a_minute_plugin.Base.{
  ℕ, ◌-◌, Bool, true, false, not, ◌&&◌, ◌||◌, Option, none, some, List, [], ◌∷◌, ◌++◌, map, ltb,
  leb, ◌==◌, if◌then◌else◌, length, all, filter, find?, Result, ok, throw,
}
use wait_a_minute_plugin.Base.Sort.{sort_by, take}
use wait_a_minute_plugin.ContextItem.{
  State, compressed, stale, invalidated, archived, Layer, n0, n1, n2, n3, archive, inherited_layer,
  unknown_layer, Category, requirement, decision, fact, observation, evidence, result, error, claim,
  assumption, action, inherited_category, unknown_category, Item, state_or_created,
}
use wait_a_minute_plugin.Lifecycle.{same}

abbrev pub working_layers : List Layer
working_layers = n0 ∷ n1 ∷ n2 ∷ n3 ∷ []

-- typeof layer === "string" && layer in MEMORY_LAYERS
unfoldable pub is_memory_layer : Layer → Bool
is_memory_layer (unknown_layer _) = false
is_memory_layer n0 = true
is_memory_layer n1 = true
is_memory_layer n2 = true
is_memory_layer n3 = true
is_memory_layer archive = true
is_memory_layer (inherited_layer _) = true

pub data Error : Type 0 where
  unknown_memory_layer : Layer → Error
  no_priority : Layer → Error  -- the configuration of this layer is undefined
  no_order : Error  -- an inherited name makes the comparison NaN: the order is the engine's own
  no_group : Layer → Error

-- LAYER_CONFIG[layer].priority and its capacity, where none is Infinity; an inherited name has
-- neither.
unfoldable pub priority : Layer → Result Error (Option ℕ)
priority n0 = ok (some 0)
priority n1 = ok (some 1)
priority n2 = ok (some 2)
priority n3 = ok (some 3)
priority archive = ok (some 4)
priority (inherited_layer _) = ok none
priority (unknown_layer s) = throw (no_priority (unknown_layer s))

unfoldable pub capacity : Layer → Option ℕ
capacity n0 = some 16
capacity n1 = some 64
capacity n2 = some 256
capacity n3 = some 128
capacity archive = none
capacity (inherited_layer _) = none
capacity (unknown_layer _) = none

-- CATEGORY_DEFAULT_LAYER; what an inherited name looks up is no layer.
unfoldable pub category_default_layer : Category → Option Layer
category_default_layer requirement = some n0
category_default_layer decision = some n0
category_default_layer fact = some n1
category_default_layer observation = some n2
category_default_layer evidence = some n2
category_default_layer result = some n2
category_default_layer error = some n2
category_default_layer claim = some n3
category_default_layer assumption = some n3
category_default_layer action = some n3
category_default_layer (inherited_category _) = none
category_default_layer (unknown_category _) = none

-- A layer that is given and valid.
unfoldable pub valid_layer : Option Layer → Option Layer
valid_layer none = none
valid_layer (some l) = if is_memory_layer l then some l else none

abbrev pub or_else : Option Layer → Option Layer → Option Layer
or_else none next = next
or_else (some l) next = some l

abbrev pub default_of : Option Category → Option Layer
default_of none = none
default_of (some c) = category_default_layer c

abbrev pub layer_or_n3 : Option Layer → Layer
layer_or_n3 none = n3
layer_or_n3 (some l) = l

unfoldable pub assign_layer : Item → Option Layer → Item
assign_layer item explicit = record item {
  memory_layer = some (
      layer_or_n3 (
        or_else (valid_layer explicit) (
          or_else (valid_layer item.memory_layer)
            (or_else (valid_layer item.metadata_layer) (default_of item.category)))));
}

-- The layer of an item as it is sorted, and the number it is sorted by.
unfoldable pub rank : Layer → Option ℕ
rank l = elim (priority l) [ ok p ↦ p | throw e ↦ none ]

abbrev pub rank_or_zero : Option ℕ → ℕ
rank_or_zero none = 0
rank_or_zero (some n) = n

unfoldable pub rank_of : Item → ℕ
rank_of item = rank_or_zero (rank (layer_or_n3 item.memory_layer))

abbrev pub is_ranked : Layer → Bool
is_ranked l = elim (rank l) [ none ↦ false | some n ↦ true ]

-- The sort of an array whose elements are compared.
unfoldable pub sorted_items : List Item → Result Error (List Item)
sorted_items items =
    let layers = map (λ i. layer_or_n3 i.memory_layer) items in
    elim (find? (λ l. not (is_memory_layer l)) layers) [
      | some l ↦ throw (no_priority l)
      | none ↦
          if all is_ranked layers
          then ok (sort_by (λ a b. leb (rank_of a) (rank_of b)) items)
          else throw no_order
    ]

-- An array of one element is not compared.
unfoldable pub sort_by_layer : List Item → Result Error (List Item)
sort_by_layer [] = ok []
sort_by_layer (item ∷ []) = ok (item ∷ [])
sort_by_layer (first ∷ second ∷ items) = sorted_items (first ∷ second ∷ items)

pub record Groups : Type 0 where
  pub in_n0 : List Item
  pub in_n1 : List Item
  pub in_n2 : List Item
  pub in_n3 : List Item
  pub in_archive : List Item

-- out[layer].push(item)
unfoldable pub push_into : Layer → Item → Groups → Result Error Groups
push_into n0 item g = ok (record g { in_n0 = g.in_n0 ++ item ∷ [] })
push_into n1 item g = ok (record g { in_n1 = g.in_n1 ++ item ∷ [] })
push_into n2 item g = ok (record g { in_n2 = g.in_n2 ++ item ∷ [] })
push_into n3 item g = ok (record g { in_n3 = g.in_n3 ++ item ∷ [] })
push_into archive item g = ok (record g { in_archive = g.in_archive ++ item ∷ [] })
push_into (inherited_layer s) item g = throw (no_group (inherited_layer s))
push_into (unknown_layer s) item g = throw (no_group (unknown_layer s))

abbrev pub group_of : Item → Layer
group_of item = layer_or_n3 (valid_layer item.memory_layer)

unfoldable pub group_into : Groups → List Item → Result Error Groups
group_into g [] = ok g
group_into g (item ∷ items) = elim (push_into (group_of item) item g) [
  | throw e ↦ throw e
  | ok g' ↦ group_into g' items
]

abbrev pub no_groups : Groups
no_groups = record { in_n0 = []; in_n1 = []; in_n2 = []; in_n3 = []; in_archive = [] }

unfoldable pub group_by_layer : List Item → Result Error Groups
group_by_layer items = group_into no_groups items

abbrev pub number_or : ℕ → Option ℕ → ℕ
number_or d none = d
number_or d (some n) = n

-- The comparison of evictions: the least important first, then the oldest. A missing importance
-- counts as a half.
unfoldable pub sooner : Item → Item → Bool
sooner a b =
    let ia = number_or 500 a.importance in
    let ib = number_or 500 b.importance in
    ltb ia ib || (ia == ib && leb (number_or 0 a.timestamp) (number_or 0 b.timestamp))

-- The loop body of `selectEvictions`.
unfoldable pub surplus_of : ℕ → List Item → List Item
surplus_of cap bucket =
    if leb (length bucket) cap then [] else take (length bucket - cap) (sort_by sooner bucket)

unfoldable pub select_evictions : List Item → Result Error (List Item)
select_evictions items = elim (group_by_layer items) [
  | throw e ↦ throw e
  | ok g ↦ ok (
      surplus_of 16 g.in_n0
      ++ (surplus_of 64 g.in_n1 ++ (surplus_of 256 g.in_n2 ++ surplus_of 128 g.in_n3)))
]

unfoldable pub archive_candidates : List Item → List Item
archive_candidates items =
    filter
      (λ i.
        let state = state_or_created i.lifecycle in
        same compressed state
        || (same stale state || (same invalidated state || same archived state)))
      items
