-- ===== src/Runs.antt =====
-- src/state/task-runs.js: the runs of one task. The directory of runs is a dictionary from a run's
-- name to what its file holds, in the order in which the directory lists them; a file that is no
-- JSON is `none`. The state file of the task is `none` where it is absent or cannot be read. A file
-- gives back what was written to it. A state in the old form, with `progress` and no requirements, which
-- the writing of a state converts, is left out.
pub mod Started
pub mod Named
pub mod Closed
pub mod Latest
mod Tests
use wait_a_minute_plugin.Base.{
  ℕ, suc, ◌-◌, String, Bool, true, false, not, ◌||◌, Option, none, some, List, [], ◌∷◌, ◌++◌, map,
  leb, ◌==◌, ◌=?◌, if◌then◌else◌, length, filter, find?, Result, ok, throw, ◌<>◌,
}
use wait_a_minute_plugin.Base.Decimal.{to_text, pad_start}
use wait_a_minute_plugin.Base.Dict.{Dict, get, set, values, is_some}
use wait_a_minute_plugin.Base.Sort.{sort_by, rest_of}

pub record Item : Type 0 where
  pub id : String
  pub text : String
  pub timestamp : ℕ

pub record Run : Type 0 where
  pub id : String
  pub task_id : String
  pub started_at : ℕ
  pub completed_at : Option ℕ
  pub status : String
  pub phase : String
  pub observations : List Item
  pub decisions : List Item
  pub evidence : List Item
  pub actions : List Item
  pub outcome : Option String

pub record Requirement : Type 0 where
  pub id : String
  pub title : String
  pub status : String

pub record State : Type 0 where
  pub phase : String
  pub current_run_id : Option String
  pub requirements : List Requirement
  pub last_action : String
  pub objective : String

pub record Task : Type 0 where
  pub state : Option State
  pub files : Dict (Option Run)

pub data Error : Type 0 where
  task_not_found : String → Error
  run_not_found : String → Error

unfoldable pub generate_run_id : String → ℕ → String
generate_run_id task_id index = task_id <> ("-run-" <> pad_start 3 (to_text index))

-- A file that is not there and one that is no JSON both read as null.
unfoldable pub read_run_file : Task → String → Option Run
read_run_file t run_id = elim (get t.files run_id) [ none ↦ none | some content ↦ content ]

abbrev pub write_run_file : Task → String → Run → Task
write_run_file t run_id run = record t { files = set t.files run_id (some run) }

abbrev pub get_next_run_index : Task → ℕ
get_next_run_index t = suc (length t.files)

abbrev pub or_text : String → String → String
or_text s d = if s =? "" then d else s

unfoldable pub start_run : Task → String → ℕ → Result Error (Run × Task)
start_run t task_id now = elim t.state [
  | none ↦ throw (task_not_found task_id)
  | some state ↦
      let run_id = generate_run_id task_id (get_next_run_index t) in
      let run : Run = record {
        id = run_id;
        task_id = task_id;
        started_at = now;
        completed_at = none;
        status = "active";
        phase = or_text state.phase "IMPLEMENTING";
        observations = [];
        decisions = [];
        evidence = [];
        actions = [];
        outcome = none;
      } in
      ok (
        run,
        record {
          state = some (record state { current_run_id = some run_id });
          files = set t.files run_id (some run);
        },
      )
]

-- An empty outcome is not written.
abbrev pub outcome_or : Option String → Option String → Option String
outcome_or none old = old
outcome_or (some s) old = if s =? "" then old else some s

abbrev pub is_run : Option String → String → Bool
is_run none id = false
is_run (some s) id = s =? id

abbrev pub released : Option State → String → Option State
released none run_id = none
released (some s) run_id =
    if is_run s.current_run_id run_id then some (record s { current_run_id = none }) else some s

unfoldable pub close_run : Task → String → String → Option String → ℕ → Result Error (Run × Task)
close_run t run_id status outcome now = elim (read_run_file t run_id) [
  | none ↦ throw (run_not_found run_id)
  | some run ↦
      let closed : Run = record run {
        completed_at = some now;
        status = status;
        outcome = outcome_or outcome run.outcome;
      } in
      ok (
        closed,
        record { state = released t.state run_id; files = set t.files run_id (some closed) },
      )
]

-- The updates are what the assignment of the argument does to the fields.
unfoldable pub update_run : Task → String → (Run → Run) → Result Error (Run × Task)
update_run t run_id updates = elim (read_run_file t run_id) [
  | none ↦ throw (run_not_found run_id)
  | some run ↦ ok (updates run, write_run_file t run_id (updates run))
]

abbrev pub numbered : String → List Item → String → ℕ → List Item
numbered name items text now =
    items ++ record { id = name <> to_text (suc (length items)); text = text; timestamp = now } ∷ []

unfoldable pub add_observation : Task → String → String → ℕ → Result Error (Run × Task)
add_observation t run_id text now =
    update_run t run_id
      λ run. record run { observations = numbered "obs-" run.observations text now }

unfoldable pub add_decision : Task → String → String → ℕ → Result Error (Run × Task)
add_decision t run_id text now =
    update_run t run_id λ run. record run { decisions = numbered "dec-" run.decisions text now }

unfoldable pub add_evidence : Task → String → String → ℕ → Result Error (Run × Task)
add_evidence t run_id text now =
    update_run t run_id λ run. record run { evidence = numbered "ev-" run.evidence text now }

-- The action may bring an id of its own, which stands after the numbered one.
unfoldable pub add_action : Task → String → Option String → String → ℕ → Result Error (Run × Task)
add_action t run_id own_id text now = update_run t run_id λ run.
    let id : String = elim own_id [
      | none ↦ "act-" <> to_text (suc (length run.actions))
      | some own ↦ own
    ] in
    record run { actions = run.actions ++ record { id = id; text = text; timestamp = now } ∷ [] }

abbrev pub get_run : Task → String → Option Run
get_run t run_id = read_run_file t run_id

-- Invalid files are skipped.
unfoldable pub readable : List (Option Run) → List Run
readable [] = []
readable (none ∷ files) = readable files
readable (some run ∷ files) = run ∷ readable files

abbrev pub no_later : Run → Run → Bool
no_later a b = leb a.started_at b.started_at

unfoldable pub get_runs : Task → List Run
get_runs t = sort_by no_later (readable (values t.files))

unfoldable pub last : List Run → Option Run
last [] = none
last (r ∷ []) = some r
last (r ∷ (s ∷ rs)) = last (s ∷ rs)

abbrev pub get_last_run : Task → Option Run
get_last_run t = last (get_runs t)

unfoldable pub get_current_run : Task → Option Run
get_current_run t = elim t.state [
  | none ↦ none
  | some s ↦ elim s.current_run_id [
    | none ↦ none
    | some id ↦ if id =? "" then none else get_run t id
  ]
]

unfoldable pub get_active_run : Task → Option Run
get_active_run t = find? (λ r. r.status =? "active") (get_runs t)

abbrev pub get_unresolved_requirements : Task → List Requirement
get_unresolved_requirements t = elim t.state [
  | none ↦ []
  | some s ↦ filter (λ r. not (r.status =? "done")) s.requirements
]

abbrev pub get_previous_failures : Task → List Run
get_previous_failures t = filter (λ r. r.status =? "failed" || r.status =? "abandoned") (get_runs t)

pub record Decision : Type 0 where
  pub run_id : String
  pub decision : String
  pub timestamp : ℕ
  pub completed_at : Option ℕ

unfoldable pub all_decisions : List Run → List Decision
all_decisions [] = []
all_decisions (r ∷ rs) =
    map
      (λ d. record {
        run_id = r.id;
        decision = d.text;
        timestamp = d.timestamp;
        completed_at = r.completed_at;
      })
      r.decisions
    ++ all_decisions rs

-- allDecisions.slice(-limit), which for a limit of 0 is the whole list
abbrev pub slice_last : ℕ → List Decision → List Decision
slice_last limit ds = if limit == 0 then ds else rest_of (length ds - limit) ds

abbrev pub get_previous_decisions : Task → ℕ → List Decision
get_previous_decisions t limit = slice_last limit (all_decisions (get_runs t))

unfoldable pub needs_new_run : Task → Bool
needs_new_run t =
    if is_some (get_active_run t)
    then false
    else if is_some (get_current_run t)
    then false
    else true

abbrev pub get_run_count : Task → ℕ
get_run_count t = length (get_runs t)

abbrev pub get_runs_by_status : Task → String → List Run
get_runs_by_status t status = filter (λ r. r.status =? status) (get_runs t)
