-- ===== src/Journal/Tests.antt =====
-- Replays of a short journal.
use wait_a_minute_plugin.Base.{
  ℕ, ◌+◌, String, ◌≡◌, refl, Bool, true, false, Option, none, some, List, [], ◌∷◌, ◌++◌, length,
  filter,
}
use wait_a_minute_plugin.Base.Dict.{get, set, delete}
use wait_a_minute_plugin.Journal.{Entry, step, steps, write, replay}
use wait_a_minute_plugin.Journal.Replayed.{
  or_else, rejected, last_effect, replay-last_effect, replay_again,
}

abbrev entry : ℕ → String → Option String → Bool → Entry ℕ
entry n task op corrupt = record {
  seq = n;
  kind = "run";
  task_id = task;
  content = n;
  op = op;
  corrupt = corrupt;
}

abbrev early : List (Option (Entry ℕ))
early = some (entry 1 "t1" none false) ∷ some (entry 2 "t2" none false) ∷ none ∷ []

abbrev late : List (Option (Entry ℕ))
late =
    some (entry 3 "t1" (some "del") false)
    ∷ some (entry 4 "t2" none true)
    ∷ some (entry 5 "" none false)
    ∷ []

t2_survives : get (replay (early ++ late) []).final_state "run:t2" ≡ some 2
unfolding replay steps step write get set delete
t2_survives = refl

t1_removed : get (replay (early ++ late) []).final_state "run:t1" ≡ none
unfolding replay steps step write get set delete
t1_removed = refl

replay-last_effect_example :
    let r = replay (early ++ late) [] in
    (get r.final_state "run:t1" ≡ or_else (last_effect (early ++ late) "run:t1") (get [] "run:t1"))
    × (r.skipped ≡ filter rejected (early ++ late))
    × (length r.applied + length r.skipped ≡ 6)
replay-last_effect_example = replay-last_effect (early ++ late) [] "run:t1"

replay_again_here :
    let whole = replay (early ++ late) [] in
    get (replay late whole.final_state).final_state "run:t2" ≡ get whole.final_state "run:t2"
replay_again_here = replay_again early late [] "run:t2"
