-- ===== src/TaskPhase/Final.antt =====
-- DONE is final for the task lifecycle of src/state/task-lifecycle.js.
use wait_a_minute_plugin.Base.{
  ℕ, String, ◌≡◌, refl, ◌∙◌, subst, inl, inr, Bool, true, false, not, ◌&&◌, Option, none, some,
  List, [], ◌∷◌, arith, eq_iff, ◌=?◌, if◌then◌else◌, Option-cases, Result, ok, throw,
}
use wait_a_minute_plugin.Base.Dict.{get, has, get-set}
use wait_a_minute_plugin.TaskPhase.{
  State, Store, Error, load_task, save_task, create, create_state, switch_to, block, is_terminal,
  terminal_phase, already_exists,
}

pub load_task-save_task :
    (store : Store) (j : String) (s : State) (id : String)
    → load_task (save_task store j s) id ≡ (if j =? id then some s else load_task store id)
unfolding load_task
load_task-save_task store j s id = rw (load_task, get-set store j (some s) id) (one (j =? id))
  where
    one :
        (b : Bool)
        → elim (if b then some (some s) else get store id) as (λ x. Option State) [
          | none ↦ none
          | some content ↦ content
        ]
          ≡ (if b then some s else elim (get store id) as (λ x. Option State) [
            | none ↦ none
            | some content ↦ content
          ])
    one true = refl
    one false = refl

-- The task's file holds a state in phase DONE.
abbrev pub Done : Store → String → Type 0
Done store id = (s : State) × (load_task store id ≡ some s) × (s.phase ≡ "DONE")

pub data Op : Type 0 where
  create_op : String → ℕ → Op
  switch_op : String → String → ℕ → Op
  block_op : String → String → ℕ → Op

-- The store after a call; one that throws leaves it alone.
abbrev pub store_after : Store → Result Error (State × Store) → Store
store_after store (throw _) = store
store_after store (ok r) = r.1

unfoldable pub apply : Store → Op → Store
apply store (create_op id now) = store_after store (create store id now)
apply store (switch_op id phase now) = store_after store (switch_to store id phase now)
apply store (block_op id reason now) = store_after store (block store id reason now)

unfoldable pub applied : Store → List Op → Store
applied store [] = store
applied store (op ∷ ops) = applied (apply store op) ops

-- A write to one task's file keeps the others, and keeps DONE where it writes DONE over it.
save-Done :
    (store : Store) (j id : String) (s : State)
    → Done store id
    → (j ≡ id → s.phase ≡ "DONE")
    → Done (save_task store j s) id
save-Done store j id s (held, there, phase) keeps = one (j =? id) refl
  where
    one : (b : Bool) → (j =? id) ≡ b → Done (save_task store j s) id
    one true q = (s, load_task-save_task store j s id ∙ rw q refl, keeps ((eq_iff j id).0 q))
    one false q = (held, load_task-save_task store j s id ∙ rw q there, phase)

same_state :
    (store : Store) (j id : String) (s : State)
    → load_task store j ≡ some s
    → Done store id
    → j ≡ id
    → s.phase ≡ "DONE"
same_state store j id s h (held, there, phase) q =
    let found = subst (λ k. load_task store k ≡ some s) q h in cc (found, there, phase)

loaded-has :
    (store : Store) (id : String) (s : State) → load_task store id ≡ some s → has store id ≡ true
unfolding load_task
loaded-has store id s h = ground arith

final_phase : (p q : String) → q ≡ "DONE" → ((q =? "DONE") && not (p =? q)) ≡ false → p ≡ "DONE"
final_phase p q was h = ground (arith, eq_iff q "DONE", eq_iff p q)

create-Done :
    (store : Store) (j id : String) (now : ℕ)
    → Done store id
    → Done (apply store (create_op j now)) id
unfolding apply create
create-Done store j id now done = one (has store j) refl
  where
    one :
        (b : Bool)
        → has store j ≡ b
        → Done
            (store_after store (
              if b
              then throw (already_exists j)
              else ok (create_state j now, save_task store j (create_state j now))))
            id
    one true q = done
    one false q =
        save-Done store j id (create_state j now) done
          λ same_. let there = loaded-has store id done.0 done.1 in cc (there, q, same_)

switch-Done :
    (store : Store) (j id phase : String) (now : ℕ)
    → Done store id
    → Done (apply store (switch_op j phase now)) id
unfolding apply switch_to
switch-Done store j id phase now done = elim (Option-cases (load_task store j)) [
  | inl e ↦ rw (e, switch_to) done
  | inr (s, e) ↦ rw (e, switch_to) (one s e (is_terminal s.phase && not (phase =? s.phase)) refl)
]
  where
    one :
        (s : State)
        → load_task store j ≡ some s
        → (b : Bool) → (is_terminal s.phase && not (phase =? s.phase)) ≡ b
        → Done
            (store_after store (
              if b
              then throw (terminal_phase s.phase)
              else ok (
                record s { phase = phase; updated_at = now },
                save_task store j (record s { phase = phase; updated_at = now }),
              )))
            id
    one s e true q = done
    one s e false q =
        save-Done store j id (record s { phase = phase; updated_at = now }) done
          λ same_. final_phase phase s.phase (same_state store j id s e done same_) q

block-Done :
    (store : Store) (j id reason : String) (now : ℕ)
    → Done store id
    → Done (apply store (block_op j reason now)) id
unfolding apply block
block-Done store j id reason now done = elim (Option-cases (load_task store j)) [
  | inl e ↦ rw (e, block) done
  | inr (s, e) ↦
      rw (e, block)
        (save-Done store j id (record s { blocked = some reason; updated_at = now }) done
          (λ same_. same_state store j id s e done same_))
]

apply-Done : (store : Store) (id : String) (op : Op) → Done store id → Done (apply store op) id
apply-Done store id (create_op j now) done = create-Done store j id now done
apply-Done store id (switch_op j phase now) done = switch-Done store j id phase now done
apply-Done store id (block_op j reason now) done = block-Done store j id reason now done

-- A task whose file holds the phase DONE holds it after any calls that create, switch, pause, complete or
-- block tasks; those that throw leave the store alone.
pub applied-Done :
    (store : Store) (ops : List Op) (id : String) → Done store id → Done (applied store ops) id
unfolding applied
applied-Done store [] id done = done
applied-Done store (op ∷ ops) id done =
    applied-Done (apply store op) ops id (apply-Done store id op done)
