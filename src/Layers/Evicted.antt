-- ===== src/Layers/Evicted.antt =====
-- `selectEvictions` of src/context/context-memory-layers.js: a tier over its capacity loses as many
-- items as it has too many, the least important and then the oldest first.
use wait_a_minute_plugin.Base.{
  ℕ, ◌-◌, ◌≡◌, refl, sym, ap, ◌∙◌, subst, Bool, true, false, not, List, [], ◌∷◌, ◌++◌, arith, leb,
  ◌==◌, if◌then◌else◌, leb→le, length, In, all, filter, filter-nil_of_all, In-filter, ok, all_of_In,
  and_true_parts, append_nil, filter-append,
}
use wait_a_minute_plugin.Base.Sort.{
  sort_by, take, rest_of, take-rest, length-take, take-In, take-before, sort_by-In, sort_by-Ordered,
  length-sort_by, sort_by-filter,
}
use wait_a_minute_plugin.ContextItem.{Layer, n0, n1, n2, n3, archive, Item}
use wait_a_minute_plugin.Layers.{sooner, surplus_of, select_evictions}
use wait_a_minute_plugin.Layers.Grouped.{is_in, layer_tag, AllGrouped, group_by_layer-filter}
use wait_a_minute_plugin.Layers.Sooner.{
  InOrder, MayGoBefore, Ordered-InOrder, alike, alike-sooner, sooner-MayGoBefore, sooner_total,
  sooner_trans,
}

-- The items of a tier that go: with those that are kept they are the tier in the order of eviction, the
-- least important first and then the oldest, where items that are alike keep their order and none is lost
-- or added; and they are as many as the tier has too many.
abbrev pub Goes : ℕ → List Item → List Item → Type 0
Goes cap bucket gone =
    (kept : List Item) × InOrder (gone ++ kept)
    × ((n t : ℕ) → filter (alike n t) (gone ++ kept) ≡ filter (alike n t) bucket)
    × (length gone ≡ length bucket - cap)
    × ((a b : Item) → In a gone → In b kept → MayGoBefore a b)

sorted-Goes :
    (bucket : List Item)
    → InOrder (sort_by sooner bucket)
      × ((n t : ℕ) → filter (alike n t) (sort_by sooner bucket) ≡ filter (alike n t) bucket)
sorted-Goes bucket = (
  Ordered-InOrder _ (sort_by-Ordered sooner sooner_total sooner_trans bucket),
  λ n t. sort_by-filter sooner (alike n t) bucket (alike-sooner n t),
)

surplus_of-Goes : (cap : ℕ) (bucket : List Item) → Goes cap bucket (surplus_of cap bucket)
unfolding surplus_of
surplus_of-Goes cap bucket = one (leb (length bucket) cap) refl
  where
    one :
        (b : Bool)
        → leb (length bucket) cap ≡ b
        → Goes cap bucket (if b then [] else take (length bucket - cap) (sort_by sooner bucket))
    one true e =
        let (ordered, same_) = sorted-Goes bucket in
        (
          sort_by sooner bucket,
          ordered,
          same_,
          omega (arith, leb→le (length bucket) cap e),
          λ a b m. absurd m,
        )
    one false e =
        let n = length bucket - cap in
        let sorted = sort_by sooner bucket in
        let (ordered, same_) = sorted-Goes bucket in
        let whole : take n sorted ++ rest_of n sorted ≡ sorted = take-rest n sorted in
        (
          rest_of n sorted,
          subst InOrder (sym whole) ordered,
          λ m t. ap (filter (alike m t)) whole ∙ same_ m t,
          length-take n sorted (omega (arith, length-sort_by sooner bucket)),
          λ a b m k. sooner-MayGoBefore a b (
              take-before sooner n sorted a b
                (sort_by-Ordered sooner sooner_total sooner_trans bucket) m k),
        )

surplus_of-In :
    (cap : ℕ) (bucket : List Item) (x : Item) → In x (surplus_of cap bucket) → In x bucket
unfolding surplus_of
surplus_of-In cap bucket x m = one (leb (length bucket) cap) m
  where
    one :
        (b : Bool)
        → In x (if b then [] else take (length bucket - cap) (sort_by sooner bucket))
        → In x bucket
    one true k = absurd k
    one false k =
        (sort_by-In sooner bucket x).0 (take-In (length bucket - cap) (sort_by sooner bucket) x k)

filter-all : (p : Item → Bool) (xs : List Item) → all p xs ≡ true → filter p xs ≡ xs
filter-all p [] h = refl
filter-all p (x ∷ xs) h = one (p x) refl (filter-all p xs)
  where
    one :
        (b : Bool)
        → p x ≡ b
        → (all p xs ≡ true → filter p xs ≡ xs)
        → (if b then x ∷ filter p xs else filter p xs) ≡ x ∷ xs
    one true e rest = ap (◌∷◌ x) (rest (ground arith))
    one false e rest = absurd (cc ((and_true_parts (p x) (all p xs) h).0, e))

module _ (items : List Item) where
  abbrev gone_of : Layer → ℕ → List Item
  gone_of l cap = surplus_of cap (filter (is_in l) items)

  member : (l : Layer) (cap : ℕ) (x : Item) → In x (gone_of l cap) → is_in l x ≡ true
  member l cap x m =
      (In-filter (is_in l) items x (surplus_of-In cap (filter (is_in l) items) x m)).1

  own : (l : Layer) (cap : ℕ) → filter (is_in l) (gone_of l cap) ≡ gone_of l cap
  own l cap =
      filter-all (is_in l) (gone_of l cap) (all_of_In (is_in l) (gone_of l cap) (member l cap))

  disjoint :
      (l k : Layer) (x : Item)
      → (layer_tag l == layer_tag k) ≡ false
      → is_in l x ≡ true
      → not (is_in k x) ≡ true
  unfolding is_in
  disjoint l k x d h = ground arith

  foreign :
      (l k : Layer) (cap : ℕ)
      → (layer_tag l == layer_tag k) ≡ false
      → filter (is_in k) (gone_of l cap) ≡ []
  foreign l k cap d =
      filter-nil_of_all (is_in k) (gone_of l cap) (
        all_of_In (λ x. not (is_in k x)) (gone_of l cap) λ x m. disjoint l k x d (member l cap x m))

  abbrev all_gone : List Item
  all_gone = gone_of n0 16 ++ (gone_of n1 64 ++ (gone_of n2 256 ++ gone_of n3 128))

  gone_in :
      (k : Layer)
      → filter (is_in k) all_gone
        ≡ filter (is_in k) (gone_of n0 16)
          ++ (filter (is_in k) (gone_of n1 64)
              ++ (filter (is_in k) (gone_of n2 256) ++ filter (is_in k) (gone_of n3 128)))
  gone_in k =
      filter-append (is_in k) (gone_of n0 16) _
      ∙ ap (λ r. filter (is_in k) (gone_of n0 16) ++ r)
          (filter-append (is_in k) (gone_of n1 64) _
            ∙ ap (λ r. filter (is_in k) (gone_of n1 64) ++ r)
                (filter-append (is_in k) (gone_of n2 256) (gone_of n3 128)))

-- For items that name no inherited layer the evictions are, for each working tier, as many of its items
-- as it has more than its capacity. Evicted and kept items together are the tier in an order in which an
-- item stands before another only if it is less important (a missing importance is a half) or as
-- important and no younger, and in which items alike in both keep their order. Nothing is evicted from
-- the archive.
pub select_evictions-Goes :
    (items : List Item)
    → AllGrouped items
    → (es : List Item) × (select_evictions items ≡ ok es)
      × Goes 16 (filter (is_in n0) items) (filter (is_in n0) es)
      × Goes 64 (filter (is_in n1) items) (filter (is_in n1) es)
      × Goes 256 (filter (is_in n2) items) (filter (is_in n2) es)
      × Goes 128 (filter (is_in n3) items) (filter (is_in n3) es)
      × (filter (is_in archive) es ≡ [])
unfolding select_evictions
select_evictions-Goes items h = (
  all_gone items,
  rw (group_by_layer-filter items h, select_evictions) refl,
  subst (Goes 16 (filter (is_in n0) items))
      (sym (
        gone_in items n0
        ∙ rw
            (
              own items n0 16,
              foreign items n1 n0 64 refl,
              foreign items n2 n0 256 refl,
              foreign items n3 n0 128 refl,
            )
            (append_nil _)))
      (surplus_of-Goes 16 (filter (is_in n0) items)),
  subst (Goes 64 (filter (is_in n1) items))
      (sym (
        gone_in items n1
        ∙ rw
            (
              foreign items n0 n1 16 refl,
              own items n1 64,
              foreign items n2 n1 256 refl,
              foreign items n3 n1 128 refl,
            )
            (append_nil _)))
      (surplus_of-Goes 64 (filter (is_in n1) items)),
  subst (Goes 256 (filter (is_in n2) items))
      (sym (
        gone_in items n2
        ∙ rw
            (
              foreign items n0 n2 16 refl,
              foreign items n1 n2 64 refl,
              own items n2 256,
              foreign items n3 n2 128 refl,
            )
            (append_nil _)))
      (surplus_of-Goes 256 (filter (is_in n2) items)),
  subst (Goes 128 (filter (is_in n3) items))
      (sym (
        gone_in items n3
        ∙ rw
            (
              foreign items n0 n3 16 refl,
              foreign items n1 n3 64 refl,
              foreign items n2 n3 256 refl,
              own items n3 128,
            )
            refl))
      (surplus_of-Goes 128 (filter (is_in n3) items)),
  gone_in items archive
      ∙ rw
          (
            foreign items n0 archive 16 refl,
            foreign items n1 archive 64 refl,
            foreign items n2 archive 256 refl,
            foreign items n3 archive 128 refl,
          )
          refl,
)
