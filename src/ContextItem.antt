-- ===== src/ContextItem.antt =====
-- The context item that src/context/context-lifecycle.js, context-memory-layers.js,
-- context-promotion.js and context-demotion.js share, with the fields they read or write. A text that
-- the source looks up with `in` or `[]` in a plain object may also be a name that every object
-- inherits, such as "toString": these are the `inherited` cases. `none` is an absent or empty field.
use wait_a_minute_plugin.Base.{ℕ, String, Option, none, some, List, []}

-- The values of `lifecycle`.
pub data State : Type 0 where
  created active compressed stale invalidated archived : State
  inherited unknown : String → State

-- The values of `memoryLayer`.
pub data Layer : Type 0 where
  n0 n1 n2 n3 archive : Layer
  inherited_layer unknown_layer : String → Layer

-- The values of `type` and `category`.
pub data Category : Type 0 where
  requirement decision fact observation evidence result error claim assumption action : Category
  inherited_category unknown_category : String → Category

-- The entry of a change of state, with what the metadata of the change adds.
pub record Change : Type 0 where
  pub from : State
  pub to : State
  pub ts : ℕ
  pub reason : Option String
  pub actor : Option String
  pub timestamp : Option ℕ

-- The entries of `lifecycleHistory`.
pub data Entry : Type 0 where
  changed : Change → Entry
  promoted demoted : Layer → Layer → Option (State × State) → ℕ → Entry

-- What a move writes into the metadata, with its time.
pub record Marks : Type 0 where
  pub promoted : Option (Layer × ℕ)
  pub demoted : Option (Layer × ℕ)
  pub archived_at : Option ℕ

-- `importance` counts thousandths; `lifecycle_history` is none where it is no array.
pub record Item : Type 0 where
  pub id : String
  pub kind : Option Category
  pub category : Option Category
  pub lifecycle : Option State
  pub lifecycle_history : Option (List Entry)
  pub memory_layer : Option Layer
  pub metadata_layer : Option Layer
  pub marks : Marks
  pub importance : Option ℕ
  pub timestamp : Option ℕ
  pub updated_at : ℕ

-- item.lifecycle || LIFECYCLE_STATES.CREATED
abbrev pub state_or_created : Option State → State
state_or_created none = created
state_or_created (some s) = s

abbrev pub history_or_none : Option (List Entry) → List Entry
history_or_none none = []
history_or_none (some es) = es
