-- ===== src/Lifecycle.antt =====
-- src/context/context-lifecycle.js: the states of a context item.
pub mod Edges
pub mod Traced
mod Tests
use wait_a_minute_plugin.Base.{
  ℕ, ◌-◌, String, Bool, true, false, not, ◌||◌, Option, none, some, List, [], ◌∷◌, ◌++◌, ltb, ◌==◌,
  if◌then◌else◌, any, Result, ok, throw,
}
use wait_a_minute_plugin.ContextItem.{
  State, created, active, compressed, stale, invalidated, archived, inherited, unknown, Entry,
  Change, changed, Item, state_or_created, history_or_none,
}

-- TRANSITIONS; an inherited name gives a value without `includes`.
unfoldable pub transitions : State → Option (List State)
transitions created = some (active ∷ stale ∷ invalidated ∷ archived ∷ [])
transitions active = some (compressed ∷ stale ∷ invalidated ∷ archived ∷ [])
transitions compressed = some (active ∷ stale ∷ invalidated ∷ archived ∷ [])
transitions stale = some (active ∷ invalidated ∷ archived ∷ compressed ∷ [])
transitions invalidated = some []
transitions archived = some []
transitions (inherited _) = none
transitions (unknown _) = none

-- `===` between a state of the table and any state.
abbrev tag : State → ℕ
tag created = 0
tag active = 1
tag compressed = 2
tag stale = 3
tag invalidated = 4
tag archived = 5
tag (inherited _) = 6
tag (unknown _) = 7

unfoldable pub same : State → State → Bool
same a b = tag a == tag b

abbrev pub terminal_states : List State
terminal_states = invalidated ∷ archived ∷ []

-- typeof state === "string" && state in LIFECYCLE_STATES
unfoldable pub is_lifecycle_state : State → Bool
is_lifecycle_state (unknown _) = false
is_lifecycle_state created = true
is_lifecycle_state active = true
is_lifecycle_state compressed = true
is_lifecycle_state stale = true
is_lifecycle_state invalidated = true
is_lifecycle_state archived = true
is_lifecycle_state (inherited _) = true

pub data Error : Type 0 where
  unknown_state invalid_lifecycle : State → Error
  illegal_transition : State → State → Error
  no_transition_list : State → Error  -- includes of a value that has none

unfoldable pub can_transition : State → State → Result Error Bool
can_transition from to =
    if not (is_lifecycle_state from) || not (is_lifecycle_state to)
    then ok false
    else elim (transitions from) [
      | none ↦ throw (no_transition_list from)
      | some next ↦ ok (any (λ s. same s to) next)
    ]

-- The metadata of a move: the keys that the source documents, the one that its callers pass, and the
-- states, which it does not keep out. A key that is not given is `none`.
pub record Meta : Type 0 where
  pub from : Option State
  pub to : Option State
  pub ts : Option ℕ
  pub reason : Option String
  pub actor : Option String
  pub timestamp : Option ℕ

-- What a key holds after a spread that may bring it.
abbrev spread_over : {A : Type 0} → A → Option A → A
spread_over old none = old
spread_over old (some new_) = new_

-- { from: current, to: next, ts: now, ...meta }
unfoldable pub change_entry : State → State → Meta → ℕ → Change
change_entry current next meta now = record {
  from = spread_over current meta.from;
  to = spread_over next meta.to;
  ts = spread_over now meta.ts;
  reason = meta.reason;
  actor = meta.actor;
  timestamp = meta.timestamp;
}

-- The item that a permitted transition returns.
unfoldable pub changed_item : Item → State → State → Meta → ℕ → Item
changed_item item current next meta now = record item {
  lifecycle = some next;
  lifecycle_history =
      some (
        history_or_none item.lifecycle_history
        ++ changed (change_entry current next meta now) ∷ []);
  updated_at = now;
}

unfoldable pub transition : Item → State → Meta → ℕ → Result Error Item
transition item next meta now =
    let current = state_or_created item.lifecycle in
    if not (is_lifecycle_state next)
    then throw (unknown_state next)
    else if not (is_lifecycle_state current)
    then throw (invalid_lifecycle current)
    else elim (can_transition current next) [
      | throw e ↦ throw e
      | ok b ↦
          if not b
          then throw (illegal_transition current next)
          else ok (changed_item item current next meta now)
    ]

unfoldable pub is_usable : Item → Bool
is_usable item =
    let state = state_or_created item.lifecycle in same created state || same active state

unfoldable pub is_terminal : State → Bool
is_terminal state = any (λ s. same s state) terminal_states

-- STALE_THRESHOLD_MS; none is Infinity, and also what an unknown state looks up, since no number is
-- greater than undefined.
unfoldable pub stale_threshold_ms : State → Option ℕ
stale_threshold_ms created = some 3600000
stale_threshold_ms active = some 86400000
stale_threshold_ms compressed = some 604800000
stale_threshold_ms stale = none
stale_threshold_ms invalidated = none
stale_threshold_ms archived = none
stale_threshold_ms (inherited _) = none
stale_threshold_ms (unknown _) = none

abbrev pub time_or : ℕ → Option ℕ → ℕ
time_or now none = now
time_or now (some t) = t

unfoldable pub staleness_check : Item → ℕ → State
staleness_check item now =
    let state = state_or_created item.lifecycle in
    elim (stale_threshold_ms state) [
      | none ↦ state
      | some threshold ↦ if ltb threshold (now - time_or now item.timestamp) then stale else state
    ]
