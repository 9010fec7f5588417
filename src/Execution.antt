-- ===== src/Execution.antt =====
-- src/execution/execution-state.js: the execution state of a task, its transition table and the
-- guard on the way to COMPLETED. The status report, which is text for a reader, is left out.
pub mod Moves
mod Tests
use wait_a_minute_plugin.Base.{
  String, Bool, true, false, not, ◌&&◌, Option, none, some, List, [], ◌∷◌, ◌=?◌, if◌then◌else◌, any,
  Result, ok, throw, is_inherited,
}
use wait_a_minute_plugin.Verification.{TaskState, has_outstanding_work}

-- The members of VALID_STATES; `other` is any other text.
pub data State : Type 0 where
  initializing investigating executing verifying completed : State
  blocked waiting_authorization failed : State
  other : String → State

unfoldable pub same : State → State → Bool
same initializing initializing = true
same investigating investigating = true
same executing executing = true
same verifying verifying = true
same completed completed = true
same blocked blocked = true
same waiting_authorization waiting_authorization = true
same failed failed = true
same (other s) (other t) = s =? t
same _ _ = false

unfoldable pub is_valid_state : State → Bool
is_valid_state (other _) = false
is_valid_state _ = true

-- ALLOWED_TRANSITIONS[from], read after `from` was found valid.
unfoldable pub allowed_transitions : State → List State
allowed_transitions initializing = investigating ∷ blocked ∷ []
allowed_transitions investigating = executing ∷ waiting_authorization ∷ blocked ∷ []
allowed_transitions executing = verifying ∷ blocked ∷ failed ∷ []
allowed_transitions verifying = completed ∷ executing ∷ failed ∷ []
allowed_transitions waiting_authorization = executing ∷ blocked ∷ []
allowed_transitions blocked = investigating ∷ executing ∷ []
allowed_transitions failed = investigating ∷ []
allowed_transitions completed = []
allowed_transitions (other _) = []

-- LEGACY_PHASE_TO_STATE[phase] || "INITIALIZING"; `none` is a value that every object inherits, which is
-- no text.
unfoldable pub migrate_legacy_phase : String → Option State
migrate_legacy_phase phase =
    if phase =? "ASKING"
    then some waiting_authorization
    else if phase =? "PROPOSED"
    then some investigating
    else if phase =? "IMPLEMENTING"
    then some executing
    else if phase =? "VERIFYING"
    then some verifying
    else if phase =? "DONE"
    then some completed
    else if is_inherited phase
    then none
    else some initializing

pub data Error : Type 0 where
  invalid_state : State → Error
  outstanding_work : Error
  invalid_transition : State → State → Error

-- The checks in the order of the source: both states, the guard, the table.
unfoldable pub transition : State → State → Option TaskState → Result Error State
unfolding is_valid_state allowed_transitions same
transition from to task =
    if not (is_valid_state from)
    then throw (invalid_state from)
    else if not (is_valid_state to)
    then throw (invalid_state to)
    else if same to completed && has_outstanding_work task
    then throw outstanding_work
    else if not (any (same to) (allowed_transitions from))
    then throw (invalid_transition from to)
    else ok to
