-- ===== src/Requirement/Summary.antt =====
-- `summarizeRequirements` of src/state/requirement-state.js against filters over the list.
use wait_a_minute_plugin.Base.{
  ◌+◌, ◌≤◌, ◌≡◌, refl, sym, ◌∙◌, ◌↔◌, inl, inr, Bool, true, not, ◌&&◌, List, [], ◌∷◌, ◌++◌, arith,
  ◌==◌, Bool-cases, length, all, filter, length-filter-le, rejected_none,
}
use mathlib.Core.List.{append-nil, append_assoc}
use wait_a_minute_plugin.Requirement.{
  Requirement, is_requirement_complete, is_stuck, scan, summarize_requirements,
}

abbrev pub unfinished : Requirement → Bool
unfinished r = not (is_requirement_complete r)

abbrev pub stuck : Requirement → Bool
stuck r = not (is_requirement_complete r) && is_stuck r

scan_lem :
    (xs ys rs : List Requirement)
    → scan xs ys rs ≡ (xs ++ filter unfinished rs, ys ++ filter stuck rs)
unfolding scan
scan_lem xs ys [] = simp append-nil
scan_lem xs ys (r ∷ rs) = elim (Bool-cases (is_requirement_complete r)) [
  | inl e ↦ rw e (scan_lem xs ys rs)
  | inr e ↦ elim (Bool-cases (is_stuck r)) [
    | inl s ↦ rw (e, s) (simp (scan_lem (xs ++ r ∷ []) (ys ++ r ∷ []) rs, append_assoc))
    | inr s ↦ rw (e, s) (simp (scan_lem (xs ++ r ∷ []) ys rs, append_assoc))
  ]
]

stuck-le : (rs : List Requirement) → length (filter stuck rs) ≤ length (filter unfinished rs)
stuck-le [] = omega arith
stuck-le (r ∷ rs) = ground (arith, stuck-le rs)

-- The verdict on a list: the two arrays are the requirements that are not complete and those of
-- them that are blocked or need a new plan, in the order of the list.
pub summarize_requirements-arrays :
    (rs : List Requirement)
    → ((summarize_requirements rs).incomplete ≡ filter unfinished rs)
      × ((summarize_requirements rs).blocked ≡ filter stuck rs)
unfolding summarize_requirements
summarize_requirements-arrays rs = simp scan_lem (refl, refl)

none_open :
    (rs : List Requirement) → (length (filter unfinished rs) == 0) ≡ all is_requirement_complete rs
none_open rs = rejected_none is_requirement_complete rs

-- The counts of a summary agree with one another and with the list: complete and incomplete ones
-- make up the total, the blocked ones are among the incomplete, and `allComplete` is said exactly
-- when every requirement of the list is complete.
pub summarize_requirements-counts :
    (rs : List Requirement)
    → let v = summarize_requirements rs in
      (v.summary.complete + v.summary.incomplete ≡ v.summary.total)
      × (v.summary.total ≡ length rs)
      × (v.summary.blocked ≤ v.summary.incomplete)
      × ((v.all_complete ≡ true) ↔ (all is_requirement_complete rs ≡ true))
unfolding summarize_requirements
summarize_requirements-counts rs = simp scan_lem (
  omega (arith, length-filter-le unfinished rs),
  refl,
  stuck-le rs,
  (λ h. sym (none_open rs) ∙ h, λ h. none_open rs ∙ h),
)
