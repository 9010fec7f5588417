-- ===== src/TaskPhase/Tests.antt =====
-- Runs of the task lifecycle.
use wait_a_minute_plugin.Base.{◌≡◌, refl, ◌↔◌, none, some, [], ◌∷◌, ok, throw, is_inherited}
use wait_a_minute_plugin.Base.Dict.{get, set}
use wait_a_minute_plugin.TaskPhase.{
  State, Error, phase_change, load_task, switch_to, complete, transition_task, phase_transitions,
  invalid_phase, no_phase_list,
}
use wait_a_minute_plugin.TaskPhase.Final.{
  Done, create_op, switch_op, block_op, applied, applied-Done,
}
use wait_a_minute_plugin.TaskPhase.Events.{transition_task-phase, Effect, Refused}

abbrev fresh : State
fresh = record {
  task_id = "t";
  phase = "PROPOSED";
  contract_status = some "DRAFT";
  requirements = [];
  next_action = none;
  blocked = none;
  created_at = 4;
  updated_at = 4;
}

abbrev finished : State
finished = record fresh { phase = "DONE"; updated_at = 6 }

-- The lifecycle takes a new task to DONE, which the table of phases does not allow.
completed_at_once :
    complete (("t", some fresh) ∷ []) "t" 6 ≡ ok (finished, ("t", some finished) ∷ [])
unfolding switch_to load_task get set
completed_at_once = refl

not_by_event :
    transition_task fresh (phase_change "DONE") 6 ≡ throw (invalid_phase "PROPOSED" "DONE")
unfolding transition_task phase_transitions is_inherited
not_by_event = refl

finished-Done : Done (("t", some finished) ∷ []) "t"
unfolding load_task get
finished-Done = (finished, refl, refl)

applied-Done_example :
    Done
      (applied
        (("t", some finished) ∷ [])
        (switch_op "t" "WAITING" 7 ∷ create_op "t" 8 ∷ block_op "t" "why" 9 ∷ []))
      "t"
applied-Done_example =
    applied-Done (("t", some finished) ∷ [])
      (switch_op "t" "WAITING" 7 ∷ create_op "t" 8 ∷ block_op "t" "why" 9 ∷ []) "t" finished-Done

not_from_inherited :
    transition_task (record fresh { phase = "constructor" }) (phase_change "DONE") 6
    ≡ throw (no_phase_list "constructor")
unfolding transition_task phase_transitions is_inherited
not_from_inherited = refl

transition_task-phase_example :
    ((s' : State)
      → (transition_task fresh (phase_change "WAITING") 6 ≡ ok s')
        ↔ Effect fresh (phase_change "WAITING") 6 s')
    × ((x : Error)
        → (transition_task fresh (phase_change "WAITING") 6 ≡ throw x)
          ↔ Refused fresh (phase_change "WAITING") x)
transition_task-phase_example = transition_task-phase fresh (phase_change "WAITING") 6
