-- ===== src/Journal.antt =====
-- src/persistence/transaction-log.js: the replay of a journal. A state is a dictionary keyed by the
-- entry's type and task, joined by a colon; data is of any type. An entry that is null or lacks a
-- field is `none` or has the empty text there; the field `data` is `content`.
pub mod Replayed
mod Tests
use wait_a_minute_plugin.Base.{
  ℕ, String, Bool, ◌||◌, Option, none, some, List, [], ◌∷◌, ◌++◌, ◌=?◌, if◌then◌else◌, ◌<>◌,
}
use wait_a_minute_plugin.Base.Dict.{Dict, set, delete}

pub record Entry (D : Type 0) : Type 0 where
  pub seq : ℕ
  pub kind : String
  pub task_id : String
  pub content : D
  pub op : Option String
  pub corrupt : Bool

pub record Applied : Type 0 where
  pub seq : ℕ
  pub key : String
  pub op : String

pub record Replay (D : Type 0) : Type 0 where
  pub applied : List Applied
  pub skipped : List (Option (Entry D))
  pub final_state : Dict D

abbrev pub op_or_set : Option String → String
op_or_set none = "set"
op_or_set (some op) = op

module _ {D : Type 0} where
  abbrev pub key_of : Entry D → String
  key_of e = e.kind <> ":" <> e.task_id

  unfoldable pub write : Dict D → Entry D → Dict D
  write state e =
      if op_or_set e.op =? "del" then delete state (key_of e) else set state (key_of e) e.content

  -- One turn of the loop.
  unfoldable pub step : Replay D → Option (Entry D) → Replay D
  step r none = record r { skipped = r.skipped ++ none ∷ [] }
  step r (some e) =
      if e.corrupt || (e.kind =? "" || e.task_id =? "")
      then record r { skipped = r.skipped ++ some e ∷ [] }
      else record r {
        applied = r.applied ++ record { seq = e.seq; key = key_of e; op = op_or_set e.op } ∷ [];
        final_state = write r.final_state e;
      }

  unfoldable pub steps : Replay D → List (Option (Entry D)) → Replay D
  steps r [] = r
  steps r (e ∷ es) = steps (step r e) es

  unfoldable pub replay : List (Option (Entry D)) → Dict D → Replay D
  replay entries initial_state =
      steps (record { applied = []; skipped = []; final_state = initial_state }) entries
