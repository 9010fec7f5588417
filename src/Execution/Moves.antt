-- ===== src/Execution/Moves.antt =====
-- The execution states of src/execution/execution-state.js: what is accepted, what completion
-- needs, and which states can still reach completion.
use wait_a_minute_plugin.Base.{
  String, ◌≡◌, refl, sym, ap, ◌∙◌, ◌≢◌, ◌↔◌, inl, inr, true, false, Option, none, some, arith, In,
  ok, throw, Result-cases, is_inherited,
}
use wait_a_minute_plugin.Verification.{
  TaskState, Backlog, requirements_of, backlog_of, has_outstanding_work,
}
use wait_a_minute_plugin.Verification.Complete.{AllVerified, has_outstanding_work_iff}
use wait_a_minute_plugin.Execution.{
  State, initializing, investigating, executing, verifying, completed, blocked,
  waiting_authorization, failed, other, Error, transition, migrate_legacy_phase, is_valid_state,
}

-- The documented transitions, apart from the guard.
pub data Move : State → State → Type 0 where
  investigate : Move initializing investigating
  obstruct_start : Move initializing blocked
  execute : Move investigating executing
  ask : Move investigating waiting_authorization
  obstruct_search : Move investigating blocked
  verify : Move executing verifying
  obstruct_work : Move executing blocked
  break_work : Move executing failed
  finish : Move verifying completed
  rework : Move verifying executing
  refute : Move verifying failed
  authorize : Move waiting_authorization executing
  deny : Move waiting_authorization blocked
  resume_search : Move blocked investigating
  resume_work : Move blocked executing
  restart : Move failed investigating

ruleset moves = (
  investigate, obstruct_start, execute, ask, obstruct_search, verify, obstruct_work, break_work,
  finish, rework, refute, authorize, deny, resume_search, resume_work, restart,
)

Move-of_ok :
    (a b c : State) (t : Option TaskState)
    → transition a b t ≡ ok c
    → Move a b × (c ≡ b) × (b ≡ completed → has_outstanding_work t ≡ false)
unfolding transition
Move-of_ok a b c t h = (grind (arith, moves), ground arith, λ e. ground arith)

ok_of_Move :
    (t : Option TaskState) {a b : State}
    → Move a b
    → (b ≡ completed → has_outstanding_work t ≡ false)
    → transition a b t ≡ ok b
unfolding transition
ok_of_Move t finish g = rw (g refl)
ok_of_Move t investigate g = refl
ok_of_Move t _ g = refl

-- A transition is accepted exactly when it is documented and, if it leads to COMPLETED, the task
-- has no outstanding work; the state returned is then the target.
pub transition-Move :
    (a b c : State) (t : Option TaskState)
    → (transition a b t ≡ ok c)
      ↔ (Move a b × (c ≡ b) × (b ≡ completed → has_outstanding_work t ≡ false))
transition-Move a b c t = (Move-of_ok a b c t, λ h. ok_of_Move t h.0 h.2 ∙ ap (λ x. ok x) (sym h.1))

-- A task enters COMPLETED only from VERIFYING, and only when each of its requirements is verified
-- with evidence and no entry of its backlog is pending.
pub transition-completed :
    (a c : State) (t : Option TaskState)
    → transition a completed t ≡ ok c
    → (a ≡ verifying)
      × AllVerified (requirements_of t)
      × ((b : Backlog) → In b (backlog_of t) → b.status ≢ "pending")
transition-completed a c t h =
    let m = Move-of_ok a completed c t h in
    let (verified, settled) = (has_outstanding_work_iff t).0 (m.2 refl) in
    (source a completed m.0 refl, verified, settled)
  where
    source : (a b : State) → Move a b → b ≡ completed → a ≡ verifying
    source a b finish e = refl
    source a b investigate e = cc
    source a b _ e = cc

-- Sequences of accepted transitions of one task.
pub data Route (t : Option TaskState) : State → State → Type 0 where
  here : {a : State} → Route t a a
  next : {a b c : State} → transition a b t ≡ ok b → Route t b c → Route t a c

-- COMPLETED is final: no transition leaves it, whatever the task.
pub completed_final :
    (b : State) (t : Option TaskState) → ((x : Error) × (transition completed b t ≡ throw x))
completed_final b t = elim (Result-cases (transition completed b t)) [
  | inl (c, e) ↦ absurd (stays _ _ (Move-of_ok completed b c t e).0 refl)
  | inr failure ↦ failure
]
  where
    stays : (a b : State) → Move a b → ¬ (a ≡ completed)
    stays a b investigate e = cc
    stays a b _ e = cc

module _ (t : Option TaskState) (w : has_outstanding_work t ≡ false) where
  from_verifying : Route t verifying completed
  from_verifying = next (ok_of_Move t finish (λ _. w)) here

  from_executing : Route t executing completed
  from_executing = next (ok_of_Move t verify (λ e. cc)) from_verifying

  from_investigating : Route t investigating completed
  from_investigating = next (ok_of_Move t execute (λ e. cc)) from_executing

-- From every state of the table a task without outstanding work can be brought to COMPLETED by
-- accepted transitions.
pub Route-completed :
    (a : State) (t : Option TaskState)
    → is_valid_state a ≡ true
    → has_outstanding_work t ≡ false
    → Route t a completed
unfolding is_valid_state
Route-completed initializing t v w =
    next (ok_of_Move t investigate (λ e. cc)) (from_investigating t w)
Route-completed investigating t v w = from_investigating t w
Route-completed executing t v w = from_executing t w
Route-completed verifying t v w = from_verifying t w
Route-completed completed t v w = here
Route-completed blocked t v w = next (ok_of_Move t resume_work (λ e. cc)) (from_executing t w)
Route-completed waiting_authorization t v w =
    next (ok_of_Move t authorize (λ e. cc)) (from_executing t w)
Route-completed failed t v w = next (ok_of_Move t restart (λ e. cc)) (from_investigating t w)
Route-completed (other s) t v w = cc

-- Every phase of the older format that is no inherited name becomes a state of the table.
pub migrate_legacy_phase-valid :
    (phase : String)
    → is_inherited phase ≡ false
    → (s : State) × (migrate_legacy_phase phase ≡ some s) × (is_valid_state s ≡ true)
unfolding is_valid_state migrate_legacy_phase
migrate_legacy_phase-valid phase h = one (migrate_legacy_phase phase) refl
  where
    one :
        (o : Option State)
        → migrate_legacy_phase phase ≡ o
        → (s : State) × (o ≡ some s) × (is_valid_state s ≡ true)
    one (some s) e = (s, refl, ground arith)
    one none e = ground arith
