-- ===== src/LayerMoves.antt =====
-- src/context/context-promotion.js and src/context/context-demotion.js: moves of an item between the
-- memory layers. Both files have the same functions that find the present layer.
pub mod Ranked
pub mod After
pub mod Promoted
pub mod Demoted
pub mod Back
mod Tests
use wait_a_minute_plugin.Base.{
  ℕ, String, Bool, false, not, ◌||◌, Option, none, some, [], ◌∷◌, ◌++◌, leb, ◌==◌, if◌then◌else◌,
  any, Result, ok, throw,
}
use wait_a_minute_plugin.ContextItem.{
  State, active, compressed, Layer, n0, n1, n2, n3, archive, inherited_layer, unknown_layer,
  Category, inherited_category, Entry, promoted, demoted, Item, state_or_created, history_or_none,
}
use wait_a_minute_plugin.Lifecycle
use wait_a_minute_plugin.Lifecycle.{same, can_transition, transition, terminal_states}
use wait_a_minute_plugin.Layers
use wait_a_minute_plugin.Layers.{
  working_layers, is_memory_layer, priority, category_default_layer, layer_or_n3, valid_layer,
}

pub data Error : Type 0 where
  invalid_target use_demotion : Layer → Error
  no_current_layer : Error  -- the layer looked up is no text, so its configuration is undefined
  layer_error : Layers.Error → Error
  not_a_promotion not_a_demotion : Layer → Layer → Error
  lifecycle_error : Lifecycle.Error → Error

abbrev layer_index : Layer → ℕ
layer_index n0 = 0
layer_index n1 = 1
layer_index n2 = 2
layer_index n3 = 3
layer_index archive = 4
layer_index (inherited_layer _) = 5
layer_index (unknown_layer _) = 6

-- `===` between a layer of the table and any layer.
unfoldable pub same_layer : Layer → Layer → Bool
same_layer a b = layer_index a == layer_index b

-- defaults[category] || "N3"; an inherited name looks up something that is no layer.
unfoldable pub infer_layer_from_category : Category → Option Layer
infer_layer_from_category (inherited_category _) = none
infer_layer_from_category c = some (layer_or_n3 (category_default_layer c))

-- item.type || item.category
abbrev pub type_or_category : Item → Option Category
type_or_category item = elim item.kind [ none ↦ item.category | some c ↦ some c ]

unfoldable pub resolve_current_layer : Item → Option Layer
resolve_current_layer item = elim (valid_layer item.memory_layer) [
  | some l ↦ some l
  | none ↦ elim (type_or_category item) [ none ↦ some n3 | some c ↦ infer_layer_from_category c ]
]

-- `a >= b` on priorities, of which an inherited name has none.
abbrev pub at_least : Option ℕ → Option ℕ → Bool
at_least none b = false
at_least (some n) none = false
at_least (some n) (some m) = leb m n

pub record Event : Type 0 where
  pub from_layer : Layer
  pub to_layer : Layer
  pub lifecycle : Option (State × State)
  pub timestamp : ℕ

-- The change of the lifecycle that a move makes: none, or from a state to a state.
abbrev pub change_from : State → Option State → Option (State × State)
change_from s none = none
change_from s (some t) = some (s, t)

abbrev pub state_after : State → Option State → State
state_after s none = s
state_after s (some t) = t

-- { reason, timestamp: now }
abbrev pub because : String → ℕ → Lifecycle.Meta
because reason now = record {
  from = none;
  to = none;
  ts = none;
  reason = some reason;
  actor = none;
  timestamp = some now;
}

-- A transition of the lifecycle, if it is permitted: the state it leads to.
unfoldable pub if_permitted : Item → State → String → ℕ → Result Error (Option State)
if_permitted item next reason now = elim (can_transition (state_or_created item.lifecycle) next) [
  | throw e ↦ throw (lifecycle_error e)
  | ok b ↦ if not b then ok none else elim (transition item next (because reason now) now) [
    | throw e ↦ throw (lifecycle_error e)
    | ok item' ↦ ok (some (state_or_created item'.lifecycle))
  ]
]

unfoldable pub promoted_item : Item → Layer → Layer → Option State → ℕ → Item × Event
promoted_item item from to change now =
    let state = state_or_created item.lifecycle in
    (
      record item {
        memory_layer = some to;
        lifecycle = some (state_after state change);
        updated_at = now;
        marks = record item.marks { promoted = some (from, now) };
        lifecycle_history = some (
            history_or_none item.lifecycle_history
            ++ promoted from to (change_from state change) now ∷ []);
      },
      record {
        from_layer = from;
        to_layer = to;
        lifecycle = change_from state change;
        timestamp = now;
      },
    )

-- The part of `promoteItem` behind the checks of its target.
unfoldable pub promote_from : Option Layer → Item → Layer → ℕ → Result Error (Item × Event)
promote_from none item target now = throw no_current_layer
promote_from (some from) item target now = elim (priority from) [
  | throw e ↦ throw (layer_error e)
  | ok current ↦ elim (priority target) [
    | throw e ↦ throw (layer_error e)
    | ok goal ↦
        if at_least goal current
        then throw (not_a_promotion from target)
        else if not (same compressed (state_or_created item.lifecycle))
        then ok (promoted_item item from target none now)
        else elim (if_permitted item active "promotion-from-compressed" now) [
          | throw e ↦ throw e
          | ok change ↦ ok (promoted_item item from target change now)
        ]
  ]
]

unfoldable pub promote_item : Item → Layer → ℕ → Result Error (Item × Event)
promote_item item target now =
    if not (is_memory_layer target)
    then throw (invalid_target target)
    else if not (any (λ l. same_layer l target) working_layers)
    then throw (use_demotion target)
    else promote_from (resolve_current_layer item) item target now

unfoldable pub demoted_item : Item → Layer → Layer → Option State → ℕ → Item × Event
demoted_item item from to change now =
    let state = state_or_created item.lifecycle in
    (
      record item {
        memory_layer = some to;
        lifecycle = some (state_after state change);
        updated_at = now;
        marks = record item.marks {
          demoted = some (from, now);
          archived_at = if same_layer archive to then some now else item.marks.archived_at;
        };
        lifecycle_history = some (
            history_or_none item.lifecycle_history
            ++ demoted from to (change_from state change) now ∷ []);
      },
      record {
        from_layer = from;
        to_layer = to;
        lifecycle = change_from state change;
        timestamp = now;
      },
    )

-- The part of `demoteItem` behind the check of its target; `target <= current` is `at_least current
-- target`.
unfoldable pub demote_from : Option Layer → Item → Layer → ℕ → Result Error (Item × Event)
demote_from none item target now = throw no_current_layer
demote_from (some from) item target now = elim (priority from) [
  | throw e ↦ throw (layer_error e)
  | ok current ↦ elim (priority target) [
    | throw e ↦ throw (layer_error e)
    | ok goal ↦
        if at_least current goal
        then throw (not_a_demotion from target)
        else if not (same_layer archive target)
            || any (λ s. same s (state_or_created item.lifecycle)) terminal_states
        then ok (demoted_item item from target none now)
        else elim (if_permitted item compressed "demotion-to-archive" now) [
          | throw e ↦ throw e
          | ok change ↦ ok (demoted_item item from target change now)
        ]
  ]
]

unfoldable pub demote_item : Item → Layer → ℕ → Result Error (Item × Event)
demote_item item target now =
    if not (is_memory_layer target)
    then throw (invalid_target target)
    else demote_from (resolve_current_layer item) item target now
