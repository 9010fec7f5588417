-- ===== src/Layers/Grouped.antt =====
-- `groupByLayer` of src/context/context-memory-layers.js against filters.
use wait_a_minute_plugin.Base.{
  ℕ, ◌≡◌, refl, sym, ap, ◌∙◌, inl, inr, Bool, true, List, [], ◌∷◌, ◌++◌, ◌==◌, In, filter, ok,
  append_nil, append_assoc, filter-append,
}
use wait_a_minute_plugin.ContextItem.{
  Layer, n0, n1, n2, n3, archive, inherited_layer, unknown_layer, Item,
}
use wait_a_minute_plugin.Layers.{
  priority, rank, is_ranked, Groups, push_into, group_of, group_into, no_groups, group_by_layer,
}

abbrev pub layer_tag : Layer → ℕ
layer_tag n0 = 0
layer_tag n1 = 1
layer_tag n2 = 2
layer_tag n3 = 3
layer_tag archive = 4
layer_tag (inherited_layer _) = 5
layer_tag (unknown_layer _) = 6

-- The item is grouped under the layer.
unfoldable pub is_in : Layer → Item → Bool
is_in l i = layer_tag (group_of i) == layer_tag l

-- No item names an inherited layer.
abbrev pub AllGrouped : List Item → Type 0
AllGrouped items = (i : Item) → In i items → is_ranked (group_of i) ≡ true

-- The groups with these items added to them.
abbrev pub with_items : Groups → List Item → Groups
with_items g items = record {
  in_n0 = g.in_n0 ++ filter (is_in n0) items;
  in_n1 = g.in_n1 ++ filter (is_in n1) items;
  in_n2 = g.in_n2 ++ filter (is_in n2) items;
  in_n3 = g.in_n3 ++ filter (is_in n3) items;
  in_archive = g.in_archive ++ filter (is_in archive) items;
}

none_added : (g : Groups) → with_items g [] ≡ g
none_added g =
    rw
      (
        append_nil g.in_n0,
        append_nil g.in_n1,
        append_nil g.in_n2,
        append_nil g.in_n3,
        append_nil g.in_archive,
      )
      refl

added :
    (g : Groups) (i : Item) (l : Layer)
    → is_ranked l ≡ true
    → group_of i ≡ l
    → push_into l i g ≡ ok (with_items g (i ∷ []))
unfolding push_into is_in rank priority
added g i n0 r e =
    rw (e, append_nil g.in_n1, append_nil g.in_n2, append_nil g.in_n3, append_nil g.in_archive) refl
added g i n1 r e =
    rw (e, append_nil g.in_n0, append_nil g.in_n2, append_nil g.in_n3, append_nil g.in_archive) refl
added g i n2 r e =
    rw (e, append_nil g.in_n0, append_nil g.in_n1, append_nil g.in_n3, append_nil g.in_archive) refl
added g i n3 r e =
    rw (e, append_nil g.in_n0, append_nil g.in_n1, append_nil g.in_n2, append_nil g.in_archive) refl
added g i archive r e =
    rw (e, append_nil g.in_n0, append_nil g.in_n1, append_nil g.in_n2, append_nil g.in_n3) refl
added g i (inherited_layer s) r e = cc r
added g i (unknown_layer s) r e = cc r

joined :
    (xs : List Item) (l : Layer) (i : Item) (items : List Item)
    → (xs ++ filter (is_in l) (i ∷ [])) ++ filter (is_in l) items
      ≡ xs ++ filter (is_in l) (i ∷ items)
joined xs l i items =
    append_assoc xs (filter (is_in l) (i ∷ [])) (filter (is_in l) items)
    ∙ ap (λ ys. xs ++ ys) (sym (filter-append (is_in l) (i ∷ []) items))

both_added :
    (g : Groups) (i : Item) (items : List Item)
    → with_items (with_items g (i ∷ [])) items ≡ with_items g (i ∷ items)
both_added g i items =
    rw
      (
        joined g.in_n0 n0 i items,
        joined g.in_n1 n1 i items,
        joined g.in_n2 n2 i items,
        joined g.in_n3 n3 i items,
        joined g.in_archive archive i items,
      )
      refl

group_into-filter :
    (g : Groups) (items : List Item)
    → AllGrouped items
    → group_into g items ≡ ok (with_items g items)
unfolding group_into
group_into-filter g [] h = ap ok (sym (none_added g))
group_into-filter g (i ∷ items) h =
    rw (added g i (group_of i) (h i (inl refl)) refl, group_into)
      (group_into-filter (with_items g (i ∷ [])) items (λ j m. h j (inr m))
        ∙ ap ok (both_added g i items))

-- Items that name no inherited layer are grouped: the group of each layer holds the items of that
-- layer, in order, where a missing or unknown layer counts as N3.
pub group_by_layer-filter :
    (items : List Item)
    → AllGrouped items
    → group_by_layer items
      ≡ ok (record {
        in_n0 = filter (is_in n0) items;
        in_n1 = filter (is_in n1) items;
        in_n2 = filter (is_in n2) items;
        in_n3 = filter (is_in n3) items;
        in_archive = filter (is_in archive) items;
      })
unfolding group_by_layer
group_by_layer-filter items h = group_into-filter no_groups items h
