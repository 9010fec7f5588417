-- ===== src/EventStore.antt =====
-- src/persistence/event-sourcing.js: the event store. `byStream` is a dictionary from a stream to its
-- events; the clock is an argument, and payloads are of any type.
pub mod Logged
mod Tests
use wait_a_minute_plugin.Base.{
  ℕ, suc, ◌+◌, String, Option, none, some, List, [], ◌∷◌, ◌++◌, ◌=?◌, if◌then◌else◌, length, Result,
  ok, throw,
}
use wait_a_minute_plugin.Base.Dict
use wait_a_minute_plugin.Base.Dict.{Dict, get, set, keys, values}

pub record Event (P : Type 0) : Type 0 where
  pub seq : ℕ
  pub stream_id : String
  pub kind : String
  pub payload : P
  pub timestamp : ℕ

pub record Store (P : Type 0) : Type 0 where
  pub by_stream : Dict (List (Event P))
  pub seq : ℕ

pub data Error : Type 0 where
  stream_id_required type_required : Error

module _ {P : Type 0} where
  abbrev pub new : Store P
  new = record { by_stream = []; seq = 0 }

  -- byStream.get(streamId) ?? []
  abbrev pub events_or_empty : Option (List (Event P)) → List (Event P)
  events_or_empty none = []
  events_or_empty (some es) = es

  unfoldable pub query : Store P → String → List (Event P)
  query s id = events_or_empty (get s.by_stream id)

  -- A name that is no text is refused by the types.
  unfoldable pub append : Store P → String → String → P → ℕ → Result Error (Event P × Store P)
  append s stream_id kind payload now =
      if stream_id =? ""
      then throw stream_id_required
      else if kind =? ""
      then throw type_required
      else let event : Event P = record {
        seq = suc s.seq;
        stream_id = stream_id;
        kind = kind;
        payload = payload;
        timestamp = now;
      } in
        ok (
          event,
          record {
            by_stream =
                set s.by_stream stream_id
                  (events_or_empty (get s.by_stream stream_id) ++ event ∷ []);
            seq = suc s.seq;
          },
        )

  abbrev pub fold : {S : Type 0} → (S → Event P → S) → List (Event P) → S → S
  fold reducer [] state = state
  fold reducer (e ∷ es) state = fold reducer es (reducer state e)

  unfoldable pub reduce : {S : Type 0} → Store P → String → (S → Event P → S) → S → S
  reduce s id reducer initial = fold reducer (query s id) initial

  abbrev pub total : List (List (Event P)) → ℕ
  total [] = 0
  total (es ∷ rest) = length es + total rest

  unfoldable pub total_events : Store P → ℕ
  total_events s = total (values s.by_stream)

  abbrev pub streams : Store P → List String
  streams s = keys s.by_stream
