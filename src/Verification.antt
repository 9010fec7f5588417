-- ===== src/Verification.antt =====
-- src/verification/verification-lifecycle.js: the verification states of a requirement and the two
-- tests on a whole task, `canComplete` and `hasOutstandingWork`.
pub mod Complete
mod Tests
use wait_a_minute_plugin.Base.{
  ℕ, String, Bool, true, false, not, ◌&&◌, ◌||◌, Option, none, some, List, [], ◌∷◌, map, ltb, ◌==◌,
  ◌=?◌, if◌then◌else◌, length, any, filter, Result, ok, throw,
}

-- The members of VERIFICATION_STATES; `other` is any other text.
pub data State : Type 0 where
  unverified verifying verified failed invalidated : State
  other : String → State

unfoldable pub same : State → State → Bool
same unverified unverified = true
same verifying verifying = true
same verified verified = true
same failed failed = true
same invalidated invalidated = true
same (other s) (other t) = s =? t
same _ _ = false

unfoldable pub is_valid_verification_state : State → Bool
is_valid_verification_state (other _) = false
is_valid_verification_state _ = true

-- VALID_TRANSITIONS[from], read after `from` was found valid.
unfoldable pub valid_transitions : State → List State
valid_transitions unverified = verifying ∷ []
valid_transitions verifying = verified ∷ failed ∷ []
valid_transitions failed = verifying ∷ []
valid_transitions verified = invalidated ∷ []
valid_transitions invalidated = verifying ∷ []
valid_transitions (other _) = []

pub data Error : Type 0 where
  invalid_state : State → Error
  invalid_transition : State → State → Error
  evidence_requires_method_and_result : Error
  no_evidence_provided : String → Error

unfoldable pub transition_verification : State → State → Result Error State
unfolding is_valid_verification_state valid_transitions same
transition_verification from to =
    if not (is_valid_verification_state from)
    then throw (invalid_state from)
    else if not (any (same to) (valid_transitions from))
    then throw (invalid_transition from to)
    else ok to

pub record Evidence : Type 0 where
  pub method : String
  pub result : String
  pub details : String
  pub at : ℕ

-- A missing `details` is the empty text. An empty `method` or `result` is refused.
unfoldable pub create_evidence : String → String → Option String → ℕ → Result Error Evidence
create_evidence method result details now =
    if method =? "" || result =? ""
    then throw evidence_requires_method_and_result
    else ok (record {
      method = method;
      result = result;
      details = elim details [ none ↦ "" | some d ↦ d ];
      at = now;
    })

-- A requirement of a task. `evidence` is `none` where the field is no array.
pub record Requirement : Type 0 where
  pub id : String
  pub verification_status : Option State
  pub evidence : Option (List Evidence)
  pub failure_reason : String

pub record Backlog : Type 0 where
  pub item : String
  pub status : String

-- The fields of a task state that the two tests read; a missing list is [].
pub record TaskState : Type 0 where
  pub requirements : List Requirement
  pub backlog : List Backlog

unfoldable pub has_evidence : Option (List Evidence) → Bool
has_evidence none = false
has_evidence (some []) = false
has_evidence (some (_ ∷ _)) = true

unfoldable pub is_verified : Requirement → Bool
unfolding same has_evidence
is_verified r =
    elim r.verification_status [ none ↦ false | some s ↦ same s verified ]
    && has_evidence r.evidence

pub record Completion : Type 0 where
  pub can_complete : Bool
  pub unverified_count : ℕ
  pub unverified_ids : List String

-- `taskState?.requirements || []`
abbrev pub requirements_of : Option TaskState → List Requirement
requirements_of none = []
requirements_of (some t) = t.requirements

abbrev pub backlog_of : Option TaskState → List Backlog
backlog_of none = []
backlog_of (some t) = t.backlog

unfoldable pub can_complete : Option TaskState → Completion
unfolding is_verified
can_complete task =
    let open_ = filter (λ r. not (is_verified r)) (requirements_of task) in
    record {
      can_complete = length open_ == 0;
      unverified_count = length open_;
      unverified_ids = map (λ r. r.id) open_;
    }

unfoldable pub is_pending : Backlog → Bool
is_pending b = b.status =? "pending"

unfoldable pub has_outstanding_work : Option TaskState → Bool
unfolding is_verified is_pending
has_outstanding_work task =
    ltb 0 (length (filter (λ r. not (is_verified r)) (requirements_of task)))
    || ltb 0 (length (filter is_pending (backlog_of task)))

unfoldable pub verify_requirement : Requirement → List Evidence → Result Error Requirement
verify_requirement r [] = throw (no_evidence_provided r.id)
verify_requirement r (e ∷ rest) =
    ok (record r { verification_status = some verified; evidence = some (e ∷ rest) })

unfoldable pub fail_requirement : Requirement → String → Requirement
fail_requirement r reason = record r { verification_status = some failed; failure_reason = reason }
