-- ===== src/Budget/Eviction.antt =====
-- `_suggestEviction` of src/context/context-budget-manager.js: the items it names are enough to bring
-- the layer back to its budget, and no more than are needed.
use wait_a_minute_plugin.Base.{
  ℕ, ◌+◌, ◌-◌, ◌≤◌, ◌<◌, String, ◌≡◌, refl, sym, subst, inl, inr, Bool, true, false, List, [], ◌∷◌,
  ◌++◌, arith, eq_iff, leb, ◌=?◌, if◌then◌else◌, leb→le, Bool-cases, In, filter, In-filter,
}
use wait_a_minute_plugin.Base.Dict.{values}
use wait_a_minute_plugin.Budget.{
  Item, Manager, layer_order, used_in, total_of, get_layer_usage, get_budget, get_items, insert,
  sort, take_until, suggest_eviction, Violation, violation_of, check_violations,
}
use wait_a_minute_plugin.Budget.Usage.{violations_in-In}

insert-In : (i : Item) (js : List Item) (x : Item) → In x (insert i js) → In x (i ∷ js)
unfolding insert
insert-In i [] x m = m
insert-In i (j ∷ js) x m = one (leb i.tokens j.tokens) (insert-In i js x) m
  where
    one :
        (b : Bool)
        → (In x (insert i js) → In x (i ∷ js))
        → In x (if b then i ∷ j ∷ js else j ∷ insert i js)
        → In x (i ∷ j ∷ js)
    one true rest k = k
    one false rest (inl e) = inr (inl e)
    one false rest (inr k) = elim (rest k) [ inl e ↦ inl e | inr later ↦ inr (inr later) ]

sort-In : (is : List Item) (x : Item) → In x (sort is) → In x is
unfolding sort
sort-In [] x m = m
sort-In (i ∷ is) x m = elim (insert-In i (sort is) x m) [
  | inl e ↦ inl e
  | inr later ↦ inr (sort-In is x later)
]

total_of-insert : (i : Item) (js : List Item) → total_of (insert i js) ≡ i.tokens + total_of js
unfolding total_of insert
total_of-insert i [] = refl
total_of-insert i (j ∷ js) = one (leb i.tokens j.tokens) (total_of-insert i js)
  where
    one :
        (b : Bool)
        → total_of (insert i js) ≡ i.tokens + total_of js
        → total_of (if b then i ∷ j ∷ js else j ∷ insert i js) ≡ i.tokens + (j.tokens + total_of js)
    one true e = refl
    one false e = omega (arith, e)

total_of-sort : (is : List Item) → total_of (sort is) ≡ total_of is
unfolding total_of sort
total_of-sort [] = refl
total_of-sort (i ∷ is) = omega (arith, total_of-insert i (sort is), total_of-sort is)

total_of-layer :
    (layer : String) (is : List Item)
    → total_of (filter (λ i. i.layer =? layer) is) ≡ used_in layer is
unfolding total_of used_in
total_of-layer layer [] = refl
total_of-layer layer (i ∷ is) = one (i.layer =? layer) (total_of-layer layer is)
  where
    one :
        (b : Bool)
        → total_of (filter (λ j. j.layer =? layer) is) ≡ used_in layer is
        → total_of
            (if b then i ∷ filter (λ j. j.layer =? layer) is else filter (λ j. j.layer =? layer) is)
          ≡ (if b then i.tokens else 0) + used_in layer is
    one true e = omega (arith, e)
    one false e = omega (arith, e)

take_until-In :
    (excess freed : ℕ) (is : List Item) (x : Item) → In x (take_until excess freed is) → In x is
unfolding take_until
take_until-In excess freed [] x m = m
take_until-In excess freed (i ∷ is) x m =
    one (leb excess freed) (take_until-In excess (freed + i.tokens) is x) m
  where
    one :
        (b : Bool)
        → (In x (take_until excess (freed + i.tokens) is) → In x is)
        → In x (if b then [] else i ∷ take_until excess (freed + i.tokens) is)
        → In x (i ∷ is)
    one true rest k = absurd k
    one false rest (inl e) = inl e
    one false rest (inr k) = inr (rest k)

-- Enough is taken when there is enough.
take_until_enough :
    (excess freed : ℕ) (is : List Item)
    → excess ≤ freed + total_of is
    → excess ≤ freed + total_of (take_until excess freed is)
unfolding take_until total_of
take_until_enough excess freed [] h = h
take_until_enough excess freed (i ∷ is) h = elim (Bool-cases (leb excess freed)) [
  | inl e ↦ rw e (omega (arith, leb→le excess freed e))
  | inr e ↦ rw e (omega (arith, take_until_enough excess (freed + i.tokens) is (omega arith)))
]

-- Before the last item that is taken the excess was not yet freed.
take_until_needed :
    (excess freed : ℕ) (is init : List Item) (last : Item)
    → take_until excess freed is ≡ init ++ last ∷ []
    → freed + total_of init < excess
unfolding take_until total_of
take_until_needed excess freed [] [] last h = cc h
take_until_needed excess freed [] (x ∷ init) last h = cc h
take_until_needed excess freed (i ∷ is) [] last h = ground arith
take_until_needed excess freed (i ∷ is) (x ∷ init) last h =
    ground (arith, take_until_needed excess (freed + i.tokens) is init last)

suggestion_parts :
    (m : Manager) (layer : String)
    → let v = violation_of m layer in
      (v.over_by ≤ total_of v.suggestion)
      × ((x : Item) → In x v.suggestion → In x (values m.items) × (x.layer ≡ v.layer))
      × ((init : List Item) (last : Item)
          → v.suggestion ≡ init ++ last ∷ []
          → total_of init < v.over_by)
unfolding violation_of get_layer_usage suggest_eviction get_items
suggestion_parts m layer =
    let over : ℕ = used_in layer (values m.items) - get_budget m layer in
    let items : List Item = filter (λ i. i.layer =? layer) (values m.items) in
    let stock : over ≤ 0 + total_of (sort items) =
      omega (arith, total_of-sort items, total_of-layer layer (values m.items)) in
    (
      omega (arith, take_until_enough over 0 (sort items) stock),
      λ x h.
          let (at, own) =
            In-filter (λ i. i.layer =? layer) (values m.items) x
              (sort-In items x (take_until-In over 0 (sort items) x h)) in
          (at, (eq_iff x.layer layer).0 own),
      λ init last e. omega (arith, take_until_needed over 0 (sort items) init last e),
    )

-- For every violation in a report the suggested evictions are items of that layer, their tokens make
-- up for the excess, and without the last of them they would not.
pub check_violations_frees :
    (m : Manager) (v : Violation)
    → In v (check_violations m).violations
    → (v.over_by ≤ total_of v.suggestion)
      × ((x : Item) → In x v.suggestion → In x (values m.items) × (x.layer ≡ v.layer))
      × ((init : List Item) (last : Item)
          → v.suggestion ≡ init ++ last ∷ []
          → total_of init < v.over_by)
unfolding check_violations
check_violations_frees m v h =
    let (layer, _, _, same) = violations_in-In m layer_order v h in
    subst
      (λ w.
        (w.over_by ≤ total_of w.suggestion)
        × ((x : Item) → In x w.suggestion → In x (values m.items) × (x.layer ≡ w.layer))
        × ((init : List Item) (last : Item)
            → w.suggestion ≡ init ++ last ∷ []
            → total_of init < w.over_by))
      (sym same) (suggestion_parts m layer)
