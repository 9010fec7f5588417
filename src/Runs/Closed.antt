-- ===== src/Runs/Closed.antt =====
-- What closing a run of src/state/task-runs.js does, and what changing one does.
use wait_a_minute_plugin.Base.{
  ℕ, String, ◌≡◌, refl, Bool, true, false, Option, none, some, ◌=?◌, if◌then◌else◌, ok, throw,
}
use wait_a_minute_plugin.Base.Dict.{get, set, get-set}
use wait_a_minute_plugin.Runs.{
  Run, State, Task, run_not_found, read_run_file, outcome_or, is_run, released, close_run,
  update_run, write_run_file,
}

-- A run with its end written into it.
abbrev pub closed : Run → String → Option String → ℕ → Run
closed run status outcome now = record run {
  completed_at = some now;
  status = status;
  outcome = outcome_or outcome run.outcome;
}

pub close_run_missing :
    (t : Task) (run_id status : String) (outcome : Option String) (now : ℕ)
    → read_run_file t run_id ≡ none
    → close_run t run_id status outcome now ≡ throw (run_not_found run_id)
unfolding close_run
close_run_missing t run_id status outcome now e = rw (e, close_run) refl

pub close_run_done :
    (t : Task) (run_id status : String) (outcome : Option String) (now : ℕ) (run : Run)
    → read_run_file t run_id ≡ some run
    → close_run t run_id status outcome now
      ≡ ok (
        closed run status outcome now,
        record {
          state = released t.state run_id;
          files = set t.files run_id (some (closed run status outcome now));
        },
      )
unfolding close_run
close_run_done t run_id status outcome now run e = rw (e, close_run) refl

pub update_run_missing :
    (t : Task) (run_id : String) (updates : Run → Run)
    → read_run_file t run_id ≡ none
    → update_run t run_id updates ≡ throw (run_not_found run_id)
unfolding update_run
update_run_missing t run_id updates e = rw (e, update_run) refl

pub update_run_done :
    (t : Task) (run_id : String) (updates : Run → Run) (run : Run)
    → read_run_file t run_id ≡ some run
    → update_run t run_id updates ≡ ok (updates run, write_run_file t run_id (updates run))
unfolding update_run
update_run_done t run_id updates run e = rw (e, update_run) refl

pub read_run_file-set :
    (t : Task) (st : Option State) (run_id : String) (run : Run) (id : String)
    → read_run_file (record { state = st; files = set t.files run_id (some run) }) id
      ≡ (if run_id =? id then some run else read_run_file t id)
unfolding read_run_file
read_run_file-set t st run_id run id =
    rw (read_run_file, get-set t.files run_id (some run) id) (one (run_id =? id))
  where
    one :
        (b : Bool)
        → elim (if b then some (some run) else get t.files id) as (λ x. Option Run) [
          | none ↦ none
          | some content ↦ content
        ]
          ≡ (if b then some run else elim (get t.files id) as (λ x. Option Run) [
            | none ↦ none
            | some content ↦ content
          ])
    one true = refl
    one false = refl

-- Closing a run succeeds exactly if its file can be read, and is otherwise an error that names the run.
-- Where it succeeds, the run is read back with its new status, its end and its outcome (the old one
-- where none or an empty one is given), all other runs read as before, and the task has no current
-- run if it was this one, and else the same as before.
pub close_run_iff :
    (t : Task) (run_id status : String) (outcome : Option String) (now : ℕ)
    → ((read_run_file t run_id ≡ none)
        → close_run t run_id status outcome now ≡ throw (run_not_found run_id))
      × ((run : Run)
          → read_run_file t run_id ≡ some run
          → (t' : Task) × (close_run t run_id status outcome now
              ≡ ok (closed run status outcome now, t'))
            × ((id : String)
                → read_run_file t' id ≡ (
                    if run_id =? id
                    then some (closed run status outcome now)
                    else read_run_file t id))
            × ((s : State)
                → t.state ≡ some s
                → t'.state
                  ≡ some (record s {
                    current_run_id =
                        if is_run s.current_run_id run_id then none else s.current_run_id;
                  })))
close_run_iff t run_id status outcome now = (
  close_run_missing t run_id status outcome now,
  λ run e. (
    record {
      state = released t.state run_id;
      files = set t.files run_id (some (closed run status outcome now));
    },
    close_run_done t run_id status outcome now run e,
    read_run_file-set t (released t.state run_id) run_id (closed run status outcome now),
    λ s h. rw h (released_parts s (is_run s.current_run_id run_id)),
  ),
)
  where
    released_parts :
        (s : State) (b : Bool)
        → (if b then some (record s { current_run_id = none }) else some s)
          ≡ some (record s { current_run_id = if b then none else s.current_run_id })
    released_parts s true = refl
    released_parts s false = refl
