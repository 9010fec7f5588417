-- ===== src/Budget/Usage.antt =====
-- The usage figures of src/context/context-budget-manager.js: the layers' usage adds up to the total,
-- and the report finds exactly the layers over budget.
use wait_a_minute_plugin.Base.{
  ℕ, ◌+◌, ◌≤◌, ◌<◌, String, ◌≡◌, refl, sym, ap, ◌∙◌, subst, ◌↔◌, inl, inr, Bool, true, false, not,
  List, [], ◌∷◌, arith, ◌=?◌, if◌then◌else◌, length, In, any, all, includes, includes-In,
  and_true_parts, not_any-In, not_any_of_In, is_empty,
}
use wait_a_minute_plugin.Base.Dict.{Dict, values}
use wait_a_minute_plugin.Budget.{
  Item, Manager, layer_order, used_in, total_of, get_total_usage, new, get_layer_usage, get_budget,
  get_minimum, Violation, violation_of, violations_in, check_violations, hard,
}
use wait_a_minute_plugin.Budget.Audit.{Run-IsFunded, Run, Run-IsKept, new-IsKept, IsFunded}

-- What an item adds to the layers is its tokens, once.
abbrev share : String → ℕ → String → ℕ
share own tokens layer = if own =? layer then tokens else 0

shared :
    (own : String) (t : ℕ)
    → In own layer_order
    → share own t "N0"
        + (share own t "N1" + (share own t "N2" + (share own t "N3" + share own t "ARCHIVE")))
      ≡ t
shared own t m = elim m [
  | inl e ↦ rw e (omega arith)
  | inr m1 ↦ elim m1 [
    | inl e ↦ rw e (omega arith)
    | inr m2 ↦ elim m2 [
      | inl e ↦ rw e (omega arith)
      | inr m3 ↦ elim m3 [
        | inl e ↦ rw e (omega arith)
        | inr m4 ↦ elim m4 [ inl e ↦ rw e (omega arith) | inr none_ ↦ absurd none_ ]
      ]
    ]
  ]
]

-- The sum over the layers.
abbrev pub used_in_all : List Item → ℕ
used_in_all is =
    used_in "N0" is
    + (used_in "N1" is + (used_in "N2" is + (used_in "N3" is + used_in "ARCHIVE" is)))

total_of-layers :
    (is : List Item)
    → all (λ i. includes layer_order i.layer) is ≡ true
    → total_of is ≡ used_in_all is
unfolding total_of used_in
total_of-layers [] h = omega arith
total_of-layers (i ∷ is) h =
    let (here_, rest) =
      and_true_parts (includes layer_order i.layer) (all (λ j. includes layer_order j.layer) is)
        h in
    omega (
      arith,
      total_of-layers is rest,
      shared i.layer i.tokens ((includes-In layer_order i.layer).0 here_),
    )

-- After any sequence of calls on a new manager the total usage is the sum of the usage of the five
-- layers, and the audit log has at most 10000 entries.
pub get_total_usage-layers :
    (budgets minimums : Dict ℕ) (m : Manager)
    → Run (new budgets minimums) m
    → (get_total_usage m
        ≡ (get_layer_usage m "N0").used
          + ((get_layer_usage m "N1").used
              + ((get_layer_usage m "N2").used
                  + ((get_layer_usage m "N3").used + (get_layer_usage m "ARCHIVE").used))))
      × (length m.audit_log ≤ 10000)
unfolding get_total_usage get_layer_usage
get_total_usage-layers budgets minimums m r =
    let kept = Run-IsKept r (new-IsKept budgets minimums) in
    (total_of-layers (values m.items) kept.known, kept.short)

pub violations_in-In :
    (m : Manager) (layers : List String) (v : Violation)
    → In v (violations_in m layers)
    → (layer : String) × In layer layers
      × ((get_layer_usage m layer).over_budget ≡ true)
      × (v ≡ violation_of m layer)
unfolding violations_in
violations_in-In m [] v h = absurd h
violations_in-In m (l ∷ layers) v h =
    one (get_layer_usage m l).over_budget refl (violations_in-In m layers v) h
  where
    one :
        (over : Bool)
        → (get_layer_usage m l).over_budget ≡ over
        → (In v (violations_in m layers)
            → (layer : String) × In layer layers
              × ((get_layer_usage m layer).over_budget ≡ true)
              × (v ≡ violation_of m layer))
        → In v (if over then violation_of m l ∷ violations_in m layers else violations_in m layers)
        → (layer : String) × In layer (l ∷ layers)
          × ((get_layer_usage m layer).over_budget ≡ true)
          × (v ≡ violation_of m layer)
    one true e rest (inl same) = (l, inl refl, e, same)
    one true e rest (inr later) = let (k, at, o, s) = rest later in (k, inr at, o, s)
    one false e rest k = let (k', at, o, s) = rest k in (k', inr at, o, s)

violations_in-nil :
    (m : Manager) (layers : List String)
    → is_empty (violations_in m layers) ≡ not (any (λ l. (get_layer_usage m l).over_budget) layers)
unfolding violations_in
violations_in-nil m [] = refl
violations_in-nil m (l ∷ layers) = ground (arith, violations_in-nil m layers)

within_budget :
    (m : Manager) (layer : String)
    → ((get_layer_usage m layer).over_budget ≡ false)
      ↔ ((get_layer_usage m layer).used ≤ (get_layer_usage m layer).budget)
unfolding get_layer_usage
within_budget m layer = (λ h. ground arith, λ h. ground arith)

-- The report is clean exactly when every layer uses at most its budget.
pub check_violations_clean :
    (m : Manager)
    → ((check_violations m).clean ≡ true) ↔ (
        (layer : String)
        → In layer layer_order
        → (get_layer_usage m layer).used ≤ (get_layer_usage m layer).budget)
unfolding check_violations
check_violations_clean m = (
  λ h layer at. (within_budget m layer).0 (
      not_any-In (λ l. (get_layer_usage m l).over_budget) layer_order layer
        (ground (arith, violations_in-nil m layer_order)) at),
  λ h.
      violations_in-nil m layer_order
      ∙ ap not (
          not_any_of_In (λ l. (get_layer_usage m l).over_budget) layer_order
            λ l at. (within_budget m l).1 (h l at)),
)

violation_of-hard :
    (m : Manager) (layer : String)
    → get_minimum m layer ≤ get_budget m layer
    → (get_layer_usage m layer).over_budget ≡ true
    → ((violation_of m layer).severity ≡ hard)
      × ((violation_of m layer).budget + (violation_of m layer).over_by
          ≡ (violation_of m layer).used)
      × (0 < (violation_of m layer).over_by)
unfolding violation_of get_layer_usage
violation_of-hard m layer funded over = (ground arith, ground arith, ground arith)

-- Where the budgets of a new manager reach the minimums, every violation reported after any sequence
-- of calls is a HARD one of a known layer, whose usage is the budget and the positive excess.
pub check_violations_hard :
    (m m' : Manager) (v : Violation)
    → IsFunded m
    → Run m m'
    → In v (check_violations m').violations
    → In v.layer layer_order
      × (v.severity ≡ hard)
      × (v.budget + v.over_by ≡ v.used)
      × (0 < v.over_by)
unfolding check_violations violation_of
check_violations_hard m m' v funded r h =
    let (layer, at, over, same) = violations_in-In m' layer_order v h in
    let (a, b, c) = violation_of-hard m' layer (Run-IsFunded r funded layer) over in
    subst
      (λ w.
        In w.layer layer_order
        × (w.severity ≡ hard)
        × (w.budget + w.over_by ≡ w.used)
        × (0 < w.over_by))
      (sym same) (at, a, b, c)
