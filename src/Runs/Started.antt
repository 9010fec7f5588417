-- ===== src/Runs/Started.antt =====
-- What `startRun` of src/state/task-runs.js gives and writes.
use Prim.Native.Char.{char}
use text.Mathlib.TextLemmas.{append-ne-nil_of_right_ne-nil, cons-ne-nil, cons-append}
use wait_a_minute_plugin.Base.{
  ℕ, suc, String, ◌≡◌, refl, sym, ◌∙◌, subst, inl, inr, false, none, some, [], eq_iff, eq_refl,
  ◌=?◌, Option-cases, length, Result, ok, throw, of_not_true,
}
use wait_a_minute_plugin.Base.Decimal.{to_text, pad_start}
use wait_a_minute_plugin.Base.Dict.{set}
use wait_a_minute_plugin.Runs.Closed.{read_run_file-set}
use wait_a_minute_plugin.Runs.{
  or_text, task_not_found, Run, State, Task, Error, generate_run_id, start_run, get_next_run_index,
  get_current_run,
}

-- The run that `startRun` makes.
abbrev pub started : Task → State → String → ℕ → Run
started t s task_id now = record {
  id = generate_run_id task_id (get_next_run_index t);
  task_id = task_id;
  started_at = now;
  completed_at = none;
  status = "active";
  phase = or_text s.phase "IMPLEMENTING";
  observations = [];
  decisions = [];
  evidence = [];
  actions = [];
  outcome = none;
}

pub start_run_missing :
    (t : Task) (task_id : String) (now : ℕ)
    → t.state ≡ none
    → start_run t task_id now ≡ throw (task_not_found task_id)
unfolding start_run
start_run_missing t task_id now e = rw e refl

pub start_run_done :
    (t : Task) (task_id : String) (now : ℕ) (s : State)
    → t.state ≡ some s
    → start_run t task_id now
      ≡ ok (
        started t s task_id now,
        record {
          state = some (record s { current_run_id = some (started t s task_id now).id });
          files = set t.files (started t s task_id now).id (some (started t s task_id now));
        },
      )
unfolding start_run
start_run_done t task_id now s e = rw e refl

ok-pair :
    (a b : Run) (x y : Task)
    → Path (Result Error (Run × Task)) (ok (a, x)) (ok (b, y))
    → (a ≡ b) × (x ≡ y)
ok-pair a b x y h = (cc, cc)

pub start_run_parts :
    (t t' : Task) (task_id : String) (now : ℕ) (run : Run)
    → start_run t task_id now ≡ ok (run, t')
    → (s : State) × (run ≡ started t s task_id now)
      × (t' ≡ record {
        state = some (record s { current_run_id = some run.id });
        files = set t.files run.id (some run);
      })
start_run_parts t t' task_id now run h = elim (Option-cases t.state) [
  | inl e ↦ cc (h, start_run_missing t task_id now e)
  | inr (s, e) ↦
      let both = ok-pair _ _ _ _ (sym (start_run_done t task_id now s e) ∙ h) in
      (
        s,
        sym both.0,
        subst
            (λ r. t' ≡ record {
              state = some (record s { current_run_id = some r.id });
              files = set t.files r.id (some r);
            })
            both.0 (sym both.1),
      )
]

pub named_text : (task_id : String) (n : ℕ) → (generate_run_id task_id n =? "") ≡ false
unfolding generate_run_id
named_text task_id n = of_not_true _ λ h.
    append-ne-nil_of_right_ne-nil task_id
      (λ q.
        cons-ne-nil (char 45 tt) _
          (sym (cons-append (char 45 tt) "run-" (pad_start 3 (to_text n))) ∙ q))
      ((eq_iff _ "").0 h)

pub current_of_started :
    (t : Task) (task_id : String) (s : State) (run : Run)
    → run.id ≡ generate_run_id task_id (suc (length t.files))
    → get_current_run (record {
      state = some (record s { current_run_id = some run.id });
      files = set t.files run.id (some run);
    })
      ≡ some run
unfolding get_current_run
current_of_started t task_id s run own =
    rw
      (
        subst (λ k. (k =? "") ≡ false) (sym own) (named_text task_id (suc (length t.files))),
        read_run_file-set t (some (record s { current_run_id = some run.id })) run.id run run.id,
        eq_refl run.id,
      )
      refl
