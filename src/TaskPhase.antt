-- ===== src/TaskPhase.antt =====
-- src/state/task-state.js, task-store.js, task-lifecycle.js and state-transition.js: the state of a
-- task and its phase. The store is a dictionary from a task to what its file holds; a file that is no
-- JSON is `none`, and a file gives back what was written to it. The table of phases is that of
-- src/integration/orchestration.js. A missing text is the empty one.
pub mod Final
pub mod Phases
pub mod Events
mod Tests
use wait_a_minute_plugin.Base.{
  ℕ, String, Bool, not, ◌&&◌, Option, none, some, List, [], ◌∷◌, map, ◌==◌, ◌=?◌, if◌then◌else◌,
  includes, Result, ok, throw, is_inherited,
}
use wait_a_minute_plugin.Base.Dict.{Dict, get, set, delete, has, keys}

pub record Requirement : Type 0 where
  pub id : String
  pub status : String

pub record State : Type 0 where
  pub task_id : String
  pub phase : String
  pub contract_status : Option String  -- contract.status, where there is a contract
  pub requirements : List Requirement
  pub next_action : Option String
  pub blocked : Option String
  pub created_at : ℕ
  pub updated_at : ℕ

pub data Error : Type 0 where
  already_exists : String → Error
  not_found : String → Error
  terminal_phase : String → Error
  invalid_phase : String → String → Error
  no_phase_list : String → Error  -- includes of a value that has none

unfoldable pub create_state : String → ℕ → State
create_state task_id now = record {
  task_id = task_id;
  phase = "PROPOSED";
  contract_status = some "DRAFT";
  requirements = [];
  next_action = none;
  blocked = none;
  created_at = now;
  updated_at = now;
}

abbrev or_draft : Option String → Option String
or_draft none = some "DRAFT"
or_draft (some s) = some s

-- An empty next action is replaced by null.
abbrev or_null : Option String → Option String
or_null none = none
or_null (some s) = if s =? "" then none else some s

unfoldable pub normalize_state : Option State → ℕ → State
unfolding create_state
normalize_state none now = create_state "unknown" now
normalize_state (some s) now = record s {
  phase = if s.phase =? "" then "PROPOSED" else s.phase;
  contract_status = or_draft s.contract_status;
  next_action = or_null s.next_action;
  created_at = if s.created_at == 0 then now else s.created_at;
  updated_at = now;
}

pub data Validity : Type 0 where
  valid missing_task_id missing_phase : Validity

unfoldable pub validate_state : Option State → Validity
validate_state none = missing_task_id
validate_state (some s) =
    if s.task_id =? "" then missing_task_id else if s.phase =? "" then missing_phase else valid

abbrev pub Store : Type 0
Store = Dict (Option State)

unfoldable pub load_task : Store → String → Option State
load_task store id = elim (get store id) [ none ↦ none | some content ↦ content ]

abbrev pub save_task : Store → String → State → Store
save_task store id s = set store id (some s)

abbrev pub task_exists : Store → String → Bool
task_exists store id = has store id

abbrev pub list_tasks : Store → List String
list_tasks store = keys store

abbrev pub delete_task : Store → String → Store
delete_task store id = delete store id

unfoldable pub create : Store → String → ℕ → Result Error (State × Store)
create store id now =
    if task_exists store id
    then throw (already_exists id)
    else ok (create_state id now, save_task store id (create_state id now))

unfoldable pub resume : Store → String → ℕ → Result Error State
resume store id now = elim (load_task store id) [
  | none ↦ throw (not_found id)
  | some s ↦ ok (normalize_state (some s) now)
]

abbrev pub is_terminal : String → Bool
is_terminal phase = phase =? "DONE"

unfoldable pub switch_to : Store → String → String → ℕ → Result Error (State × Store)
switch_to store id new_phase now = elim (load_task store id) [
  | none ↦ throw (not_found id)
  | some s ↦
      if is_terminal s.phase && not (new_phase =? s.phase)
      then throw (terminal_phase s.phase)
      else let moved : State = record s { phase = new_phase; updated_at = now } in
        ok (moved, save_task store id moved)
]

abbrev pub pause : Store → String → ℕ → Result Error (State × Store)
pause store id now = switch_to store id "WAITING" now

abbrev pub complete : Store → String → ℕ → Result Error (State × Store)
complete store id now = switch_to store id "DONE" now

unfoldable pub block : Store → String → String → ℕ → Result Error (State × Store)
block store id reason now = elim (load_task store id) [
  | none ↦ throw (not_found id)
  | some s ↦
      let held : State = record s { blocked = some reason; updated_at = now } in
      ok (held, save_task store id held)
]

-- PHASE_TRANSITIONS[from] || []; `none` is a value without `includes`, found under a name that every
-- object inherits, which no key of the table is.
unfoldable pub phase_transitions : String → Option (List String)
phase_transitions from =
    if is_inherited from
    then none
    else if from =? "PROPOSED"
    then some ("IMPLEMENTING" ∷ "WAITING" ∷ "ASKING" ∷ [])
    else if from =? "IMPLEMENTING"
    then some ("VERIFYING" ∷ "DONE" ∷ "ASKING" ∷ [])
    else if from =? "VERIFYING"
    then some ("IMPLEMENTING" ∷ "DONE" ∷ [])
    else if from =? "DONE"
    then some []
    else if from =? "ASKING"
    then some ("PROPOSED" ∷ "IMPLEMENTING" ∷ [])
    else if from =? "WAITING"
    then some ("PROPOSED" ∷ "IMPLEMENTING" ∷ [])
    else some []

unfoldable pub can_transition_phase : String → String → Result Error Bool
can_transition_phase from to = elim (phase_transitions from) [
  | none ↦ throw (no_phase_list from)
  | some allowed ↦ ok (includes allowed to)
]

pub data Event : Type 0 where
  requirement_verified phase_change : String → Event
  contract_approved : Event
  next_action_set : String → Event
  other_event : String → Event

abbrev pub verified_if : String → Requirement → Requirement
verified_if id r = if r.id =? id then record r { status = "verified" } else r

unfoldable pub transition_task : State → Event → ℕ → Result Error State
transition_task s (requirement_verified id) now =
    ok (record s { requirements = map (verified_if id) s.requirements; updated_at = now })
transition_task s (phase_change phase) now = elim (phase_transitions s.phase) [
  | none ↦ throw (no_phase_list s.phase)
  | some allowed ↦
      if not (includes allowed phase)
      then throw (invalid_phase s.phase phase)
      else ok (record s { phase = phase; updated_at = now })
]
transition_task s contract_approved now =
    ok (record s { contract_status = some "APPROVED"; updated_at = now })
transition_task s (next_action_set action) now =
    ok (record s { next_action = some action; updated_at = now })
transition_task s (other_event _) now = ok s
