-- ===== src/Runs/Tests.antt =====
-- Runs of a task, started, closed and read.
use wait_a_minute_plugin.Base.{
  suc, ◌≤◌, String, ◌≡◌, refl, ◌↔◌, inl, true, false, none, some, [], ◌∷◌, ◌=?◌, if◌then◌else◌,
  length, In, ok,
}
use wait_a_minute_plugin.Base.Decimal
use wait_a_minute_plugin.Base.Dict.{get, set, has, keys, values}
use wait_a_minute_plugin.Runs.{
  Run, State, Task, start_run, generate_run_id, read_run_file, close_run, is_run, readable,
  get_last_run, get_current_run, needs_new_run,
}
use wait_a_minute_plugin.Runs.Named.{start, applied, apply, names, start_run-fresh}
use wait_a_minute_plugin.Runs.Closed.{closed, close_run_iff}
use wait_a_minute_plugin.Runs.Latest.{get_last_run-latest, needs_new_run_iff}

abbrev state : State
state = record {
  phase = "";
  current_run_id = some "t-run-001";
  requirements = [];
  last_action = "";
  objective = "o";
}

abbrev first : Run
first = record {
  id = "t-run-001";
  task_id = "t";
  started_at = 5;
  completed_at = none;
  status = "active";
  phase = "IMPLEMENTING";
  observations = [];
  decisions = [];
  evidence = [];
  actions = [];
  outcome = none;
}

abbrev one_run : Task
one_run = record { state = some state; files = ("t-run-001", some first) ∷ [] }

starts_first : start_run (record { state = some state; files = [] }) "t" 5 ≡ ok (first, one_run)
unfolding start_run generate_run_id set Decimal.pad_start Decimal.to_text Decimal.digits
    Decimal.digit
starts_first = refl

-- Where the only file has the number 2, the run that is started next takes its name.
overwritten :
    (start_run (record { state = some state; files = ("t-run-002", some first) ∷ [] }) "t" 7)
    ≡ ok (
      record first { id = "t-run-002"; started_at = 7 },
      record {
        state = some (record state { current_run_id = some "t-run-002" });
        files = ("t-run-002", some (record first { id = "t-run-002"; started_at = 7 })) ∷ [];
      },
    )
unfolding start_run generate_run_id set Decimal.pad_start Decimal.to_text Decimal.digits
    Decimal.digit
overwritten = refl

abbrev empty : Task
empty = record { state = some state; files = [] }

abbrev second : Run
second = record first { id = "t-run-002"; started_at = 7; phase = "IMPLEMENTING" }

abbrev two_runs : Task
two_runs = record {
  state = some (record state { current_run_id = some "t-run-002" });
  files = ("t-run-001", some first) ∷ ("t-run-002", some second) ∷ [];
}

starts_second : start_run (applied "t" empty (start 5 ∷ [])) "t" 7 ≡ ok (second, two_runs)
unfolding applied apply start_run generate_run_id set Decimal.pad_start Decimal.to_text
    Decimal.digits Decimal.digit
starts_second = refl

start_run-fresh_example :
    let t = applied "t" empty (start 5 ∷ []) in
    (keys t.files ≡ names "t" (length t.files))
    × (second.id ≡ generate_run_id "t" (suc (length t.files)))
    × (get_current_run two_runs ≡ some second)
    × ((id : String) → has t.files id ≡ true → get two_runs.files id ≡ get t.files id)
start_run-fresh_example =
    start_run-fresh "t" (some state) (start 5 ∷ []) 7 second two_runs starts_second

reads_first : read_run_file one_run "t-run-001" ≡ some first
unfolding read_run_file get
reads_first = refl

close_run_iff_example :
    (t' : Task) × (close_run one_run "t-run-001" "completed" none 9
      ≡ ok (closed first "completed" none 9, t'))
    × ((id : String)
        → read_run_file t' id ≡ (
            if "t-run-001" =? id
            then some (closed first "completed" none 9)
            else read_run_file one_run id))
    × ((s : State)
        → one_run.state ≡ some s
        → t'.state
          ≡ some (record s {
            current_run_id = if is_run s.current_run_id "t-run-001" then none else s.current_run_id;
          }))
close_run_iff_example = (close_run_iff one_run "t-run-001" "completed" none 9).1 first reads_first

get_last_run-latest_here :
    (l : Run) × (get_last_run one_run ≡ some l)
    × In l (readable (values one_run.files))
    × ((q : Run) → In q (readable (values one_run.files)) → q.started_at ≤ l.started_at)
unfolding readable
get_last_run-latest_here = get_last_run-latest one_run first (inl refl)

needs_new_run_iff_here : (needs_new_run one_run ≡ true) ↔ (
    ((r : Run) → In r (readable (values one_run.files)) → (r.status =? "active") ≡ false)
    × (get_current_run one_run ≡ none))
needs_new_run_iff_here = needs_new_run_iff one_run
