-- ===== src/Execution/Tests.antt =====
-- Runs of the execution states, and the theorems at concrete tasks.
use wait_a_minute_plugin.Base.{
  ◌≡◌, refl, ◌≢◌, ◌↔◌, true, false, none, some, [], ◌∷◌, In, ok, throw, is_inherited,
}
use wait_a_minute_plugin.Verification.{verified, Evidence, Backlog, TaskState, has_outstanding_work}
use wait_a_minute_plugin.Verification.Complete.{AllVerified}
use wait_a_minute_plugin.Execution.{
  investigating, executing, verifying, completed, failed, transition, migrate_legacy_phase,
  is_valid_state, Error, outstanding_work, State,
}
use wait_a_minute_plugin.Execution.Moves.{
  Move, Route, transition-Move, transition-completed, completed_final, Route-completed,
  migrate_legacy_phase-valid,
}

abbrev unit_test : Evidence
unit_test = record { method = "test"; result = "pass"; details = ""; at = 5 }

abbrev done_task : TaskState
done_task = record {
  requirements =
      record {
        id = "r1";
        verification_status = some verified;
        evidence = some (unit_test ∷ []);
        failure_reason = "";
      }
      ∷ [];
  backlog = record { item = "clean up"; status = "done" } ∷ [];
}

abbrev open_task : TaskState
open_task = record done_task { backlog = record { item = "clean up"; status = "pending" } ∷ [] }

guarded : transition verifying completed (some open_task) ≡ throw outstanding_work
unfolding transition has_outstanding_work
guarded = refl

accepted : transition verifying completed (some done_task) ≡ ok completed
unfolding transition has_outstanding_work
accepted = refl

settled : has_outstanding_work (some done_task) ≡ false
unfolding has_outstanding_work
settled = refl

transition-Move_example : (transition investigating executing (some open_task) ≡ ok executing) ↔ (
    Move investigating executing
    × (executing ≡ executing)
    × (executing ≡ completed → has_outstanding_work (some open_task) ≡ false))
transition-Move_example = transition-Move investigating executing executing (some open_task)

transition-completed_example :
    (verifying ≡ verifying)
    × AllVerified done_task.requirements
    × ((b : Backlog) → In b done_task.backlog → b.status ≢ "pending")
transition-completed_example = transition-completed verifying completed (some done_task) accepted

completed_final_here : (x : Error) × (transition completed investigating none ≡ throw x)
completed_final_here = completed_final investigating none

Route-completed_example : Route (some done_task) failed completed
unfolding is_valid_state
Route-completed_example = Route-completed failed (some done_task) refl settled

asking_is_valid : (s : State) × (migrate_legacy_phase "ASKING" ≡ some s) × (is_valid_state s ≡ true)
unfolding is_inherited
asking_is_valid = migrate_legacy_phase-valid "ASKING" refl

inherited_phase : migrate_legacy_phase "toString" ≡ none
unfolding migrate_legacy_phase is_inherited
inherited_phase = refl
