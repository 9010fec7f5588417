-- ===== src/PolicyFlow.antt =====
-- src/policy/policy-state-machine.js: the policies, the table of their transitions, their chain and
-- their preconditions.
pub mod Passed
mod Tests
use wait_a_minute_plugin.Base.{
  String, Bool, true, false, not, ◌&&◌, Option, none, some, List, [], ◌∷◌, ◌++◌, ◌=?◌,
  if◌then◌else◌, any, Result, ok, throw, is_empty,
}

-- The values of POLICY_STATES. `inherited` is a name that every object inherits, such as "toString",
-- and `other` any other text.
pub data Policy : Type 0 where
  scope investigate action debug observe verify review completion : Policy
  inherited other : String → Policy

-- `===` on policies.
unfoldable pub same : Policy → Policy → Bool
same scope scope = true
same investigate investigate = true
same action action = true
same debug debug = true
same observe observe = true
same verify verify = true
same review review = true
same completion completion = true
same (inherited s) (inherited t) = s =? t
same (other s) (other t) = s =? t
same _ _ = false

-- What POLICY_TRANSITIONS[policy] is: a list, `undefined`, or a value without `includes`.
pub data Found : Type 0 where
  allows : List Policy → Found
  undefined no_list : Found

unfoldable pub transitions : Policy → Found
transitions scope = allows (investigate ∷ [])
transitions investigate = allows (action ∷ debug ∷ [])
transitions action = allows (observe ∷ verify ∷ [])
transitions debug = allows (observe ∷ verify ∷ [])
transitions observe = allows (verify ∷ review ∷ [])
transitions verify = allows (review ∷ completion ∷ [])
transitions review = allows (completion ∷ investigate ∷ [])
transitions completion = allows []
transitions (inherited _) = no_list
transitions (other _) = undefined

abbrev pub policy_chain : List Policy
policy_chain = scope ∷ investigate ∷ action ∷ debug ∷ observe ∷ verify ∷ review ∷ completion ∷ []

pub data Reason : Type 0 where
  same_policy invalid_transition : Reason

-- A call of `includes` on a value that has none.
pub data Error : Type 0 where
  no_transition_list : Policy → Error

-- `none` stands for { valid: true }, `some reason` for { valid: false, reason }.
unfoldable pub validate_policy_flow : Policy → Policy → Result Error (Option Reason)
unfolding same transitions
validate_policy_flow current next =
    if same current next then ok (some same_policy) else elim (transitions current) [
      | no_list ↦ throw (no_transition_list current)
      | undefined ↦ ok (some invalid_transition)
      | allows allowed ↦
          if not (any (same next) allowed) then ok (some invalid_transition) else ok none
    ]

-- The element behind the first occurrence, if there is one.
unfoldable pub behind : Policy → List Policy → Option Policy
unfolding same
behind p [] = none
behind p (x ∷ []) = none
behind p (x ∷ (y ∷ ys)) = let rest = behind p (y ∷ ys) in if same x p then some y else rest

unfoldable pub get_next_policy : Policy → Option Policy
unfolding behind
get_next_policy current = behind current policy_chain

unfoldable pub is_valid_policy_transition : Policy → Policy → Result Error Bool
unfolding same transitions
is_valid_policy_transition from to = elim (transitions from) [
  | no_list ↦ throw (no_transition_list from)
  | undefined ↦ ok false
  | allows allowed ↦ ok (any (same to) allowed)
]

-- A field that the table of preconditions leaves out is false.
pub record Precondition : Type 0 where
  pub context_sufficient : Bool
  pub requirement_known : Bool
  pub evidence_available : Bool
  pub all_verified : Bool

abbrev no_precondition : Precondition
no_precondition = record {
  context_sufficient = false;
  requirement_known = false;
  evidence_available = false;
  all_verified = false;
}

-- POLICY_PRECONDITIONS[policy]; the value under an inherited name has none of the fields.
unfoldable pub preconditions : Policy → Option Precondition
preconditions investigate = some (record no_precondition { context_sufficient = true })
preconditions action = some (record no_precondition { requirement_known = true })
preconditions debug = some (record no_precondition { requirement_known = true })
preconditions verify = some (record no_precondition { evidence_available = true })
preconditions review = some no_precondition
preconditions (inherited _) = some no_precondition
preconditions _ = none

-- Of the task: whether there is a current requirement, and the status of each requirement.
pub record TaskState : Type 0 where
  pub context_sufficient : Bool
  pub has_current_requirement : Bool
  pub evidence : List String
  pub requirements : List String

pub data Failure : Type 0 where
  context_not_sufficient no_current_requirement no_evidence_available : Failure
  requirements_not_verified : Failure

abbrev when : Bool → Failure → List Failure
when b f = if b then f ∷ [] else []

unfoldable pub failures_of : Precondition → TaskState → List Failure
failures_of required t =
    when (required.context_sufficient && not t.context_sufficient) context_not_sufficient
    ++ (when (required.requirement_known && not t.has_current_requirement) no_current_requirement
        ++ (when (required.evidence_available && is_empty t.evidence) no_evidence_available
            ++ when (required.all_verified && any (λ s. not (s =? "VERIFIED")) t.requirements)
                requirements_not_verified))

-- The failures; the check is satisfied where there are none.
unfoldable pub check_policy_preconditions : Policy → TaskState → List Failure
unfolding preconditions failures_of
check_policy_preconditions policy t = elim (preconditions policy) [
  | none ↦ []
  | some required ↦ failures_of required t
]
