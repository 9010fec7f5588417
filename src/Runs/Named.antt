-- ===== src/Runs/Named.antt =====
-- The names of the runs of src/state/task-runs.js: a started run has one that no run had.
use text.Mathlib.TextLemmas.{append_cancel_left}
use wait_a_minute_plugin.Base.{
  ℕ, zero, suc, ◌<◌, String, ◌≡◌, refl, ap, ◌∙◌, subst, inl, inr, true, false, Option, some, List,
  [], ◌∷◌, ◌++◌, arith, eq_iff, ◌=?◌, Option-cases, length, In, Result, ok, throw, of_not_true,
  In-append,
}
use wait_a_minute_plugin.Base.Decimal.{pad_start-inj}
use wait_a_minute_plugin.Base.Dict.{
  get, set, has, keys, has-keys, keys-set_old, keys-set_new, get-set, length-set,
}
use wait_a_minute_plugin.Runs.Started.{
  started, start_run_missing, start_run_done, start_run_parts, current_of_started,
}
use wait_a_minute_plugin.Runs.Closed.{
  close_run_missing, close_run_done, update_run_missing, update_run_done,
}
use wait_a_minute_plugin.Runs.{
  released, Run, State, Task, Error, generate_run_id, read_run_file, start_run, close_run,
  update_run, get_current_run,
}

generate_run_id-inj :
    (task_id : String) (n m : ℕ) → generate_run_id task_id n ≡ generate_run_id task_id m → n ≡ m
unfolding generate_run_id
generate_run_id-inj task_id n m h =
    pad_start-inj 3 n m (append_cancel_left "-run-" _ _ (append_cancel_left task_id _ _ h))

-- What a directory holds in which only runs were started: the names with the numbers from 1 to n.
abbrev pub names : String → ℕ → List String
names task_id zero = []
names task_id (suc n) = names task_id n ++ generate_run_id task_id (suc n) ∷ []

names-In : (task_id : String) (n m : ℕ) → n < m → ¬ In (generate_run_id task_id m) (names task_id n)
names-In task_id zero m h i = i
names-In task_id (suc n) m h i =
    elim ((In-append (names task_id n) (generate_run_id task_id (suc n) ∷ [])
        (generate_run_id task_id m)).0
      i) [
        | inl a ↦ names-In task_id n m (omega arith) a
        | inr b ↦ elim b [
          | inl e ↦ absurd (omega (arith, generate_run_id-inj task_id m (suc n) e))
          | inr n_ ↦ n_
        ]
      ]

pub data Op : Type 0 where
  start : ℕ → Op
  close : String → String → Option String → ℕ → Op
  update : String → (Run → Run) → Op

-- The task after a call; one that throws leaves it alone.
abbrev pub task_after : Task → Result Error (Run × Task) → Task
task_after t (throw _) = t
task_after t (ok r) = r.1

unfoldable pub apply : String → Task → Op → Task
apply task_id t (start now) = task_after t (start_run t task_id now)
apply task_id t (close run_id status outcome now) =
    task_after t (close_run t run_id status outcome now)
apply task_id t (update run_id updates) = task_after t (update_run t run_id updates)

unfoldable pub applied : String → Task → List Op → Task
applied task_id t [] = t
applied task_id t (op ∷ ops) = applied task_id (apply task_id t op) ops

abbrev Named : String → Task → Type 0
Named task_id t = keys t.files ≡ names task_id (length t.files)

unnamed :
    (task_id : String) (t : Task)
    → Named task_id t
    → has t.files (generate_run_id task_id (suc (length t.files))) ≡ false
unnamed task_id t named = of_not_true _ λ h.
    names-In task_id (length t.files) (suc (length t.files)) (omega arith)
      (subst (In _) named (has-keys t.files _ h))

set_new-Named :
    (task_id : String) (t : Task) (st : Option State) (content : Option Run)
    → Named task_id t
    → Named task_id (record {
      state = st;
      files = set t.files (generate_run_id task_id (suc (length t.files))) content;
    })
set_new-Named task_id t st content named =
    let k = generate_run_id task_id (suc (length t.files)) in
    let free = unnamed task_id t named in
    keys-set_new t.files k content free ∙ rw (named, length-set t.files k content, free) refl

set_old-Named :
    (task_id : String) (t : Task) (st : Option State) (run_id : String) (run : Run)
    (content : Option Run)
    → read_run_file t run_id ≡ some run
    → Named task_id t
    → Named task_id (record { state = st; files = set t.files run_id content })
unfolding read_run_file
set_old-Named task_id t st run_id run content there named =
    let old : has t.files run_id ≡ true = ground arith in
    keys-set_old t.files run_id content old ∙ rw (length-set t.files run_id content, old) named

apply-Named :
    (task_id : String) (t : Task) (op : Op) → Named task_id t → Named task_id (apply task_id t op)
unfolding apply
apply-Named task_id t (start now) named = elim (Option-cases t.state) [
  | inl e ↦ rw (start_run_missing t task_id now e) named
  | inr (st, e) ↦ rw (start_run_done t task_id now st e) (
      set_new-Named task_id t
        (some (record st { current_run_id = some (started t st task_id now).id })) _ named)
]
apply-Named task_id t (close run_id status outcome now) named =
    elim (Option-cases (read_run_file t run_id)) [
      | inl e ↦ rw (close_run_missing t run_id status outcome now e) named
      | inr (r, e) ↦
          rw (close_run_done t run_id status outcome now r e)
            (set_old-Named task_id t (released t.state run_id) run_id r _ e named)
    ]
apply-Named task_id t (update run_id updates) named = elim (Option-cases (read_run_file t run_id)) [
  | inl e ↦ rw (update_run_missing t run_id updates e) named
  | inr (r, e) ↦
      rw (update_run_done t run_id updates r e) (set_old-Named task_id t t.state run_id r _ e named)
]

applied-Named :
    (task_id : String) (t : Task) (ops : List Op)
    → Named task_id t
    → Named task_id (applied task_id t ops)
unfolding applied
applied-Named task_id t [] named = named
applied-Named task_id t (op ∷ ops) named =
    applied-Named task_id (apply task_id t op) ops (apply-Named task_id t op named)

-- A run started in a directory whose files are numbered.
start_run-Named :
    (t t' : Task) (task_id : String) (now : ℕ) (run : Run)
    → Named task_id t
    → start_run t task_id now ≡ ok (run, t')
    → (run.id ≡ generate_run_id task_id (suc (length t.files)))
      × (get_current_run t' ≡ some run)
      × ((id : String) → has t.files id ≡ true → get t'.files id ≡ get t.files id)
start_run-Named t t' task_id now run named h =
    let (s, made, left) = start_run_parts t t' task_id now run h in
    let own : run.id ≡ generate_run_id task_id (suc (length t.files)) = ap (λ r. r.id) made in
    (
      own,
      rw left (current_of_started t task_id s run own),
      λ id there. rw left (get-set t.files run.id (some run) id ∙ rw (other id own there) refl),
    )
  where
    other :
        (id : String)
        → run.id ≡ generate_run_id task_id (suc (length t.files))
        → has t.files id ≡ true
        → (run.id =? id) ≡ false
    other id own there =
        of_not_true _ λ q. cc (unnamed task_id t named, there, (eq_iff run.id id).0 q, own)

-- For a task whose directory of runs was empty, after any calls that start, close and update runs (those
-- that throw leave the task alone), the files are named with the numbers from 1 to their number. A run
-- that is then started has the next one, it can be read back and is the current run, and every file that
-- was there holds what it held.
pub start_run-fresh :
    (task_id : String) (st : Option State) (ops : List Op) (now : ℕ) (run : Run) (t' : Task)
    → let t = applied task_id (record { state = st; files = [] }) ops in
      start_run t task_id now ≡ ok (run, t')
      → (keys t.files ≡ names task_id (length t.files))
        × (run.id ≡ generate_run_id task_id (suc (length t.files)))
        × (get_current_run t' ≡ some run)
        × ((id : String) → has t.files id ≡ true → get t'.files id ≡ get t.files id)
start_run-fresh task_id st ops now run t' h =
    let t : Task = applied task_id (record { state = st; files = [] }) ops in
    let named : Named task_id t =
      applied-Named task_id (record { state = st; files = [] }) ops refl in
    let (own, current, kept) = start_run-Named t t' task_id now run named h in
    (named, own, current, kept)
