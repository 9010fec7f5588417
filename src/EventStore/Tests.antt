-- ===== src/EventStore/Tests.antt =====
-- Runs of the event store.
use wait_a_minute_plugin.Base.{
  ℕ, ◌+◌, String, ◌≡◌, refl, ◌↔◌, true, List, [], ◌∷◌, ◌=?◌, length, In, any,
}
use wait_a_minute_plugin.Base.Dict.{get, set}
use wait_a_minute_plugin.EventStore.{
  Event, new, query, reduce, total_events, streams, fold, append, get, set,
}
use wait_a_minute_plugin.EventStore.Logged.{Call, after, log_from, of_stream, after-log_from}

abbrev calls : List (Call ℕ)
calls =
    record { stream_id = "a"; kind = "opened"; payload = 1; now = 5 }
    ∷ record { stream_id = "b"; kind = "opened"; payload = 2; now = 6 }
    ∷ record { stream_id = ""; kind = "lost"; payload = 3; now = 7 }
    ∷ record { stream_id = "a"; kind = "closed"; payload = 4; now = 8 }
    ∷ []

abbrev summed : ℕ → Event ℕ → ℕ
summed n e = n + e.payload

second_of_a :
    query (after new calls) "a"
    ≡ record { seq = 1; stream_id = "a"; kind = "opened"; payload = 1; timestamp = 5 }
      ∷ record { seq = 3; stream_id = "a"; kind = "closed"; payload = 4; timestamp = 8 }
      ∷ []
unfolding query after append get set
second_of_a = refl

after-log_from_example :
    let s = after new calls in
    let log = log_from 0 calls in
    ((id : String)
      → (query s id ≡ of_stream id log)
        × (reduce s id summed 0 ≡ fold summed (of_stream id log) 0)
        × (In id (streams s) ↔ (any (λ e. e.stream_id =? id) log ≡ true)))
    × (total_events s ≡ length log)
after-log_from_example = after-log_from calls summed 0
