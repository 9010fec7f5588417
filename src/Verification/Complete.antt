-- ===== src/Verification/Complete.antt =====
-- What the verification lifecycle of src/verification/verification-lifecycle.js guarantees.
use wait_a_minute_plugin.Base.{
  String, ◌≡◌, refl, sym, ap, ◌∙◌, ◌≢◌, ◌↔◌, ◌⊎◌, inl, inr, Bool, true, false, not, Option, none,
  some, List, [], ◌∷◌, arith, eq_iff, ltb, ◌==◌, length, In, all, filter, all-In, ok, throw,
  rejected_none, all_of_In, of_not_eq_false, of_not_true, of_not_false, or_false_parts,
}
use wait_a_minute_plugin.Verification.{
  State, unverified, verifying, verified, failed, invalidated, Error, transition_verification,
  Evidence, Requirement, Backlog, TaskState, is_verified, requirements_of, backlog_of, can_complete,
  is_pending, has_outstanding_work, verify_requirement, fail_requirement,
}

-- The lifecycle as the module's comment draws it.
pub data Step : State → State → Type 0 where
  begin : Step unverified verifying
  pass : Step verifying verified
  fail : Step verifying failed
  retry : Step failed verifying
  invalidate : Step verified invalidated
  again : Step invalidated verifying

ruleset steps = (begin, pass, fail, retry, invalidate, again)

Step-of_ok : (a b c : State) → transition_verification a b ≡ ok c → Step a b × (c ≡ b)
unfolding transition_verification
Step-of_ok a b c h = grind (arith, steps)

ok_of_Step : {a b : State} → Step a b → transition_verification a b ≡ ok b
unfolding transition_verification
ok_of_Step begin = refl
ok_of_Step _ = refl

-- A move between verification states is accepted exactly along the drawn steps, and then its
-- result is the target.
pub transition_verification-Step :
    (a b c : State) → (transition_verification a b ≡ ok c) ↔ (Step a b × (c ≡ b))
transition_verification-Step a b c =
    (Step-of_ok a b c, λ h. ok_of_Step h.0 ∙ ap (λ x. ok x) (sym h.1))

-- A requirement counts as verified when its state is VERIFIED and some evidence is recorded.
abbrev pub IsVerified : Requirement → Type 0
IsVerified r =
    (r.verification_status ≡ some verified) × (r.evidence ≢ none) × (r.evidence ≢ some [])

is_verified_sound : (r : Requirement) → is_verified r ≡ true → IsVerified r
unfolding is_verified
is_verified_sound r h = ground arith

is_verified_complete : (r : Requirement) → IsVerified r → is_verified r ≡ true
unfolding is_verified
is_verified_complete r h = ground arith

-- Every requirement of a list is verified.
abbrev pub AllVerified : List Requirement → Type 0
AllVerified rs = (r : Requirement) → In r rs → IsVerified r

all-AllVerified : (rs : List Requirement) → (all is_verified rs ≡ true) ↔ AllVerified rs
all-AllVerified rs = (
  λ h r m. is_verified_sound r (all-In is_verified rs r h m),
  λ h. all_of_In is_verified rs (λ r m. is_verified_complete r (h r m)),
)

none_open :
    (rs : List Requirement)
    → (length (filter (λ r. not (is_verified r)) rs) == 0) ≡ all is_verified rs
none_open rs = rejected_none is_verified rs

-- `canComplete` says yes exactly when each requirement of the task is in state VERIFIED with at
-- least one piece of evidence; it says yes to a task with no requirements.
pub can_complete-AllVerified :
    (t : Option TaskState)
    → ((can_complete t).can_complete ≡ true) ↔ AllVerified (requirements_of t)
unfolding can_complete
can_complete-AllVerified t =
    let rs = requirements_of t in
    (
      λ h. (all-AllVerified rs).0 (sym (none_open rs) ∙ h),
      λ h. none_open rs ∙ (all-AllVerified rs).1 h,
    )

count_zero :
    {A : Type 0} (p : A → Bool) (xs : List A)
    → (ltb 0 (length (filter p xs)) ≡ false) ↔ ((x : A) → In x xs → p x ≡ false)
count_zero p [] = (λ h x m. absurd m, λ h. refl)
count_zero p (x ∷ xs) = (
  λ h y m. elim m [ inl e ↦ ground arith | inr later ↦ (count_zero p xs).0 (ground arith) y later ],
  λ h. rw (h x (inl refl)) ((count_zero p xs).1 (λ y m. h y (inr m))),
)

none_unverified :
    (rs : List Requirement)
    → (ltb 0 (length (filter (λ r. not (is_verified r)) rs)) ≡ false) ↔ AllVerified rs
none_unverified rs = (
  λ h r m.
      is_verified_sound r (of_not_eq_false _ ((count_zero (λ r. not (is_verified r)) rs).0 h r m)),
  λ h. (count_zero (λ r. not (is_verified r)) rs).1 (λ r m. rw (is_verified_complete r (h r m))),
)

none_pending :
    (bs : List Backlog)
    → (ltb 0 (length (filter is_pending bs)) ≡ false)
      ↔ ((b : Backlog) → In b bs → b.status ≢ "pending")
unfolding is_pending
none_pending bs = (
  λ h b m e. cc ((count_zero is_pending bs).0 h b m, (eq_iff b.status "pending").1 e),
  λ h. (count_zero is_pending bs).1 (λ b m. ground (arith, h b m, eq_iff b.status "pending")),
)

-- There is no outstanding work exactly when every requirement is verified and no entry of the
-- backlog is pending.
pub has_outstanding_work_iff :
    (t : Option TaskState)
    → (has_outstanding_work t ≡ false) ↔ (
        AllVerified (requirements_of t)
        × ((b : Backlog) → In b (backlog_of t) → b.status ≢ "pending"))
unfolding has_outstanding_work is_pending
has_outstanding_work_iff t = (
  λ h.
      let (a, b) = or_false_parts _ _ h in
      ((none_unverified (requirements_of t)).0 a, (none_pending (backlog_of t)).0 b),
  λ h. rw ((none_unverified (requirements_of t)).1 h.0) ((none_pending (backlog_of t)).1 h.1),
)

-- A requirement verified with evidence counts as verified, and verifying without evidence is an
-- error that names the requirement.
pub verify_requirement-verified :
    (r : Requirement) (items : List Evidence)
    → ((items ≡ []) × (verify_requirement r items ≡ throw (Error.no_evidence_provided r.id)))
      ⊎ ((r' : Requirement) × (verify_requirement r items ≡ ok r')
          × (r'.id ≡ r.id)
          × (is_verified r' ≡ true))
unfolding verify_requirement is_verified
verify_requirement-verified r [] = inl (refl, refl)
verify_requirement-verified r (e ∷ rest) = inr (_, refl, refl, refl)

-- A requirement that failed is not verified, so a task that holds it can neither be completed nor
-- is free of outstanding work.
pub fail_requirement-blocks :
    (r : Requirement) (reason : String) (t : TaskState)
    → In (fail_requirement r reason) t.requirements
    → ((can_complete (some t)).can_complete ≡ false) × (has_outstanding_work (some t) ≡ true)
unfolding fail_requirement
fail_requirement-blocks r reason t m = (
  of_not_true _ (λ e. not_verified ((can_complete-AllVerified (some t)).0 e)),
  of_not_false _ (λ e. not_verified ((has_outstanding_work_iff (some t)).0 e).0),
)
  where
    not_verified : ¬ AllVerified t.requirements
    not_verified all_ok = cc ((all_ok _ m).0)
