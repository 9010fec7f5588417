-- ===== src/Requirement.antt =====
-- src/state/requirement-state.js: the lifecycle of a requirement, its transition table and the
-- summary of a list of requirements.
pub mod Rules
pub mod Summary
mod Tests
use wait_a_minute_plugin.Base.{
  ℕ, ◌-◌, String, Bool, true, false, not, ◌&&◌, ◌||◌, Option, none, some, List, [], ◌∷◌, ◌++◌, ◌==◌,
  ◌=?◌, if◌then◌else◌, length, any, Result, ok, throw,
}

-- The values of REQUIREMENT_STATES. `inherited` is a name that every object inherits, such as
-- "toString", and `other` any other text.
pub data Status : Type 0 where
  pending in_progress verified invalidated blocked needs_replan : Status
  inherited other : String → Status

-- `===` on states.
unfoldable pub same : Status → Status → Bool
same pending pending = true
same in_progress in_progress = true
same verified verified = true
same invalidated invalidated = true
same blocked blocked = true
same needs_replan needs_replan = true
same (inherited s) (inherited t) = s =? t
same (other s) (other t) = s =? t
same _ _ = false

-- Object.values(REQUIREMENT_STATES).includes(to)
unfoldable pub is_known : Status → Bool
is_known (other _) = false
is_known (inherited _) = false
is_known _ = true

-- What TRANSITIONS[from] is: a set, `undefined`, or a value without `has`.
pub data Found : Type 0 where
  allows : List Status → Found
  undefined no_set : Found

unfoldable pub transitions : Status → Found
transitions pending = allows (in_progress ∷ blocked ∷ [])
transitions in_progress = allows (verified ∷ invalidated ∷ blocked ∷ needs_replan ∷ pending ∷ [])
transitions verified = allows (invalidated ∷ [])
transitions invalidated = allows (in_progress ∷ needs_replan ∷ pending ∷ [])
transitions blocked = allows (in_progress ∷ pending ∷ needs_replan ∷ [])
transitions needs_replan = allows (pending ∷ in_progress ∷ [])
transitions (inherited _) = no_set
transitions (other _) = undefined

-- The `reason` of a refusal; `no_transition_set` is the TypeError of `has`, which is thrown.
pub data Refusal : Type 0 where
  not_an_object : Refusal
  unknown_target : Status → Refusal
  unknown_source : Status → Refusal
  illegal : Status → Status → Refusal
  no_transition_set : Status → Refusal

-- `none` stands for { allowed: true }, `some reason` for { allowed: false, reason }.
unfoldable pub can_transition : Status → Status → Option Refusal
unfolding is_known transitions same
can_transition from to =
    if not (is_known to) then some (unknown_target to) else elim (transitions from) [
      | no_set ↦ some (no_transition_set from)
      | undefined ↦ some (unknown_source from)
      | allows allowed ↦ if any (same to) allowed then none else some (illegal from to)
    ]

-- A requirement; a missing or empty `status` is `none`. Times are milliseconds.
pub record Requirement : Type 0 where
  pub id : String
  pub title : String
  pub status : Option Status
  pub last_transition_at : Option ℕ
  pub last_transition_from : Option Status

-- requirement.status || REQUIREMENT_STATES.PENDING
abbrev pub status_or_pending : Option Status → Status
status_or_pending none = pending
status_or_pending (some s) = s

-- `throw` stands for the returned { error } (and for a thrown TypeError); `none` is an argument that is no object.
unfoldable pub transition : Option Requirement → Status → ℕ → Result Refusal Requirement
unfolding can_transition
transition none to now = throw not_an_object
transition (some r) to now =
    let from = status_or_pending r.status in
    elim (can_transition from to) [
      | some reason ↦ throw reason
      | none ↦ ok (record r {
        status = some to;
        last_transition_at = some now;
        last_transition_from = some from;
      })
    ]

-- requirement.status === REQUIREMENT_STATES.VERIFIED
unfoldable pub is_requirement_complete : Requirement → Bool
unfolding same
is_requirement_complete r = elim r.status [ none ↦ false | some s ↦ same s verified ]

-- The inner test of `summarizeRequirements`.
unfoldable pub is_stuck : Requirement → Bool
unfolding same
is_stuck r = elim r.status [ none ↦ false | some s ↦ same s blocked || same s needs_replan ]

pub record Counts : Type 0 where
  pub total : ℕ
  pub complete : ℕ
  pub incomplete : ℕ
  pub blocked : ℕ

pub record Verdict : Type 0 where
  pub all_complete : Bool
  pub incomplete : List Requirement
  pub blocked : List Requirement
  pub summary : Counts

-- The loop of `summarizeRequirements`, with its two arrays.
unfoldable pub scan :
    List Requirement → List Requirement → List Requirement → List Requirement × List Requirement
unfolding is_requirement_complete is_stuck
scan unfinished stuck [] = (unfinished, stuck)
scan unfinished stuck (r ∷ rest) =
    scan (if is_requirement_complete r then unfinished else unfinished ++ r ∷ [])
      (if not (is_requirement_complete r) && is_stuck r then stuck ++ r ∷ [] else stuck) rest

unfoldable pub summarize_requirements : List Requirement → Verdict
unfolding scan
summarize_requirements requirements =
    let (unfinished, stuck) = scan [] [] requirements in
    record {
      all_complete = length unfinished == 0;
      incomplete = unfinished;
      blocked = stuck;
      summary = record {
        total = length requirements;
        complete = length requirements - length unfinished;
        incomplete = length unfinished;
        blocked = length stuck;
      };
    }
