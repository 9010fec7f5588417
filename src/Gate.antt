-- ===== src/Gate.antt =====
-- src/verification/completion-gate.js: why a requirement blocks completion, and the decision on a
-- whole task. What the files hold is an argument: whether the root exists, the parsed task state
-- (`none` for the null of a task that is not there) and the parsed evidence.
pub mod Admission
pub mod Marks
mod Tests
use wait_a_minute_plugin.Base.{
  ℕ, String, Bool, true, false, not, ◌||◌, Option, none, some, List, [], ◌∷◌, map, ◌=?◌,
  if◌then◌else◌, length, any, all, includes, Result, ok, throw, is_empty,
}
use wait_a_minute_plugin.Requirement.{
  Requirement, Status, status_or_pending, Counts, is_requirement_complete, summarize_requirements,
}

-- A piece of evidence as the gate reads it. A missing or empty text is `none`.
pub record Evidence : Type 0 where
  pub requirement_id : String
  pub status : Option String
  pub verdict : Option String

-- e.status || e.verdict
unfoldable pub mark : Evidence → Option String
mark e = elim e.status [ none ↦ e.verdict | some s ↦ some s ]

unfoldable pub is_one_of : List String → Option String → Bool
is_one_of texts none = false
is_one_of texts (some s) = includes texts s

abbrev pub refuting : List String
refuting = "contradictory" ∷ "CONTRADICTORY" ∷ "INVALIDATED" ∷ "invalidated" ∷ []

abbrev pub inconclusive : List String
inconclusive = "inconclusive" ∷ "INCONCLUSIVE" ∷ []

abbrev pub confirming : List String
confirming = "valid" ∷ "VERIFIED" ∷ []

-- allEvidence.filter((e) => e && e.requirementId === id); a null entry is `none`.
unfoldable pub evidence_for : String → List (Option Evidence) → List Evidence
evidence_for id [] = []
evidence_for id (none ∷ rest) = evidence_for id rest
evidence_for id (some e ∷ rest) =
    if e.requirement_id =? id then e ∷ evidence_for id rest else evidence_for id rest

pub data Reason : Type 0 where
  no_evidence_linked : Status → Reason
  refuting_evidence_present : Reason
  only_inconclusive : Reason
  no_valid_evidence : Reason
  status_not_verified : Status → Reason

pub record Blocker : Type 0 where
  pub requirement_id : String
  pub reason : Reason

-- The four checks of `findBlocker`, on the evidence of the requirement.
unfoldable pub blocking_reason : Requirement → List Evidence → Option Reason
unfolding mark is_one_of
blocking_reason r [] = some (no_evidence_linked (status_or_pending r.status))
blocking_reason r (e ∷ es) =
    let marks = map mark (e ∷ es) in
    if any (is_one_of refuting) marks
    then some refuting_evidence_present
    else if all (is_one_of inconclusive) marks
    then some only_inconclusive
    else if is_requirement_complete r
    then none
    else if not (any (is_one_of confirming) marks)
    then some no_valid_evidence
    else some (status_not_verified (status_or_pending r.status))

unfoldable pub find_blocker : Requirement → List (Option Evidence) → Option Blocker
find_blocker r all_evidence = elim (blocking_reason r (evidence_for r.id all_evidence)) [
  | none ↦ none
  | some reason ↦ some (record { requirement_id = r.id; reason = reason })
]

-- The loop over the requirements.
unfoldable pub find_blockers : List Requirement → List (Option Evidence) → List Blocker
find_blockers [] all_evidence = []
find_blockers (r ∷ rs) all_evidence =
    let rest = find_blockers rs all_evidence in
    elim (find_blocker r all_evidence) [ none ↦ rest | some b ↦ b ∷ rest ]

pub data Verdict : Type 0 where
  ids_required root_missing load_failed no_requirements : Verdict
  all_requirements_verified : Verdict
  blocking_completion : ℕ → Verdict

pub record Decision : Type 0 where
  pub allowed : Bool
  pub reason : Verdict
  pub blockers : List Blocker
  pub summary : Counts

abbrev pub no_counts : Counts
no_counts = record { total = 0; complete = 0; incomplete = 0; blocked = 0 }

abbrev pub refuse : Verdict → Decision
refuse why = record { allowed = false; reason = why; blockers = []; summary = no_counts }

-- A task state as the gate reads it: `none` where `requirements` is no array.
pub record TaskState : Type 0 where
  pub requirements : Option (List Requirement)

-- What the project's files hold. `loaded` throws when reading throws, and is `ok none` for null;
-- `evidence` throws when listing throws, and is `ok none` for a value that is no array.
pub record Files : Type 0 where
  pub root_exists : Bool
  pub loaded : Result String (Option TaskState)
  pub evidence : Result String (Option (List (Option Evidence)))

-- The error that escapes: reading `requirements` of null.
pub data Escape : Type 0 where
  requirements_of_null : Escape

unfoldable pub read_all_evidence :
    Result String (Option (List (Option Evidence))) → List (Option Evidence)
read_all_evidence (throw e) = []
read_all_evidence (ok none) = []
read_all_evidence (ok (some es)) = es

abbrev pub array_or_empty {ℓ} : {A : Type ℓ} → Option (List A) → List A
array_or_empty none = []
array_or_empty (some xs) = xs

-- The part of `canComplete` behind the check for an empty list of requirements.
unfoldable pub decide_requirements : List Requirement → List (Option Evidence) → Decision
decide_requirements rs all_evidence =
    let blockers = find_blockers rs all_evidence in
    let counts = (summarize_requirements rs).summary in
    if is_empty blockers
    then record {
      allowed = true;
      reason = all_requirements_verified;
      blockers = [];
      summary = counts;
    }
    else record {
      allowed = false;
      reason = blocking_completion (length blockers);
      blockers = blockers;
      summary = counts;
    }

-- `canComplete`, behind the checks of its arguments and of the root.
unfoldable pub decide_loaded :
    Result String (Option TaskState) → List (Option Evidence) → Result Escape Decision
decide_loaded (throw message) all_evidence = ok (refuse load_failed)
decide_loaded (ok none) all_evidence = throw requirements_of_null
decide_loaded (ok (some task)) all_evidence = elim (array_or_empty task.requirements) [
  | [] ↦ ok (refuse no_requirements)
  | r ∷ rs ↦ ok (decide_requirements (r ∷ rs) all_evidence)
]

unfoldable pub can_complete : String → String → Files → Result Escape Decision
can_complete task_root task_id files =
    if task_root =? "" || task_id =? ""
    then ok (refuse ids_required)
    else if not files.root_exists
    then ok (refuse root_missing)
    else decide_loaded files.loaded (read_all_evidence files.evidence)

unfoldable pub is_completion_allowed : String → String → Files → Result Escape Bool
is_completion_allowed task_root task_id files = elim (can_complete task_root task_id files) [
  | ok d ↦ ok d.allowed
  | throw e ↦ throw e
]
