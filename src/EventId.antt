-- ===== src/EventId.antt =====
-- src/state/run-event-identity.js: the scoped identifiers of a run's events. A run's lists are
-- dictionaries of fields; an event without an id has the empty text. A number is a natural number
-- with its sign, taken as exact.
pub mod Parsed
pub mod Migrated
mod Tests
use Prim.Native.Char.{Char, char, code}
use Prim.Native.String.{[] as ε, ◌∷◌ as cons}
use wait_a_minute_plugin.Base.{
  ℕ, suc, String, Bool, true, false, not, ◌&&◌, Option, none, some, List, [], ◌∷◌, ltb, ◌==◌, ◌=?◌,
  if◌then◌else◌, any, includes, ◌<>◌,
}
use wait_a_minute_plugin.Base.Decimal.{to_text, pad_start, is_digit, scan}
use wait_a_minute_plugin.Base.Dict.{Dict, get, set, is_some}

abbrev pub kinds : List String
kinds = "act" ∷ "obs" ∷ "dec" ∷ "ev" ∷ []

-- `${runId}:${type}:${seq}`
unfoldable pub generate_event_id : String → String → ℕ → String
generate_event_id run_id kind sequence =
    run_id <> (":" <> (kind <> (":" <> pad_start 3 (to_text sequence))))

abbrev into_first : Char → List String → List String
into_first c [] = cons c ε ∷ []
into_first c (p ∷ ps) = cons c p ∷ ps

-- split(":")
unfoldable pub split : String → List String
split ε = "" ∷ []
split (cons c s) = if code c == 58 then "" ∷ split s else into_first c (split s)

-- The white space that parseInt passes over.
abbrev spaces : List ℕ
spaces =
    9 ∷ 10 ∷ 11 ∷ 12 ∷ 13 ∷ 32 ∷ 160 ∷ 5760 ∷ 8192 ∷ 8193 ∷ 8194 ∷ 8195 ∷ 8196 ∷ 8197 ∷ 8198 ∷ 8199
    ∷ 8200 ∷ 8201 ∷ 8202 ∷ 8232 ∷ 8233 ∷ 8239 ∷ 8287 ∷ 12288 ∷ 65279 ∷ []

abbrev pub is_space : Char → Bool
is_space c = any (λ n. n == code c) spaces

pub record Number : Type 0 where
  pub negative : Bool
  pub magnitude : ℕ

unfoldable pub unsigned : Bool → String → Option Number
unsigned negative ε = none
unsigned negative (cons c s) =
    if is_digit c
    then some (record { negative = negative; magnitude = scan (cons c s) 0 })
    else none

unfoldable pub signed : String → Option Number
signed ε = none
signed (cons c s) =
    if code c == 45
    then unsigned true s
    else if code c == 43
    then unsigned false s
    else unsigned false (cons c s)

-- parseInt(s, 10); NaN is `none`.
unfoldable pub parse_int : String → Option Number
parse_int ε = none
parse_int (cons c s) = let rest = parse_int s in if is_space c then rest else signed (cons c s)

pub record EventId : Type 0 where
  pub run_id : String
  pub kind : String
  pub sequence : Number

unfoldable pub of_parts : List String → Option EventId
of_parts (run_id ∷ kind ∷ seq_text ∷ []) = elim (parse_int seq_text) [
  | none ↦ none
  | some n ↦
      if not (includes kinds kind)
      then none
      else some (record { run_id = run_id; kind = kind; sequence = n })
]
of_parts _ = none

unfoldable pub parse_event_id : String → Option EventId
parse_event_id event_id = if event_id =? "" then none else of_parts (split event_id)

abbrev pub is_scoped_event_id : String → Bool
is_scoped_event_id id = is_some (parse_event_id id)

abbrev pub get_event_type : String → Option String
get_event_type event_id = elim (parse_event_id event_id) [ none ↦ none | some p ↦ some p.kind ]

abbrev pub get_run_id_from_event : String → Option String
get_run_id_from_event event_id = elim (parse_event_id event_id) [
  | none ↦ none
  | some p ↦ some p.run_id
]

pub record Event : Type 0 where
  pub id : String
  pub text : String
  pub timestamp : ℕ

-- The lists of events of a run stand under the names of their fields.
pub record Run : Type 0 where
  pub id : String
  pub fields : Dict (List Event)

abbrev pub field_of : String → Option String
field_of kind =
    if kind =? "act"
    then some "actions"
    else if kind =? "obs"
    then some "observations"
    else if kind =? "dec"
    then some "decisions"
    else if kind =? "ev"
    then some "evidence"
    else none

-- One turn of the loop over the events.
unfoldable pub larger : String → ℕ → Option EventId → ℕ
larger kind max_seq none = max_seq
larger kind max_seq (some p) =
    if p.kind =? kind && (not p.sequence.negative && ltb max_seq p.sequence.magnitude)
    then p.sequence.magnitude
    else max_seq

unfoldable pub max_sequence : String → ℕ → List Event → ℕ
max_sequence kind max_seq [] = max_seq
max_sequence kind max_seq (e ∷ es) =
    max_sequence kind (larger kind max_seq (parse_event_id e.id)) es

-- run[field]
abbrev pub events_of : Run → String → Option (List Event)
events_of run kind = elim (field_of kind) [ none ↦ none | some field ↦ get run.fields field ]

unfoldable pub get_next_sequence : Run → String → ℕ
get_next_sequence run kind = elim (events_of run kind) [
  | none ↦ 1
  | some es ↦ suc (max_sequence kind 0 es)
]

-- The data may bring an id of its own, which stands after the generated one.
unfoldable pub create_scoped_event : Run → String → Option String → String → ℕ → Event
create_scoped_event run kind own_id text now =
    let id = generate_event_id run.id kind (get_next_sequence run kind) in
    record { id = elim own_id [ none ↦ id | some own ↦ own ]; text = text; timestamp = now }

unfoldable pub migrate_events : String → String → ℕ → List Event → List Event
migrate_events run_id kind i [] = []
migrate_events run_id kind i (e ∷ es) =
    (if not (e.id =? "") && not (is_scoped_event_id e.id)
      then record e { id = generate_event_id run_id kind (suc i) }
      else e)
    ∷ migrate_events run_id kind (suc i) es

unfoldable pub migrate_field : String → Dict (List Event) → String × String → Dict (List Event)
migrate_field run_id fields (field, kind) = elim (get fields field) [
  | none ↦ fields
  | some es ↦ set fields field (migrate_events run_id kind 0 es)
]

unfoldable pub migrate_run_event_ids : Run → Run
migrate_run_event_ids run =
    let a = migrate_field run.id run.fields ("actions", "act") in
    let b = migrate_field run.id a ("observations", "obs") in
    let c = migrate_field run.id b ("decisions", "dec") in
    record run { fields = migrate_field run.id c ("evidence", "ev") }
