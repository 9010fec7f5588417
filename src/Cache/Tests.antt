-- ===== src/Cache/Tests.antt =====
-- Runs of the context cache.
use wait_a_minute_plugin.Base.{
  ℕ, ◌+◌, ◌≤◌, String, ◌≡◌, refl, ◌↔◌, ◌⊎◌, true, not, ◌&&◌, none, some, List, [], ◌∷◌, leb, ◌=?◌,
  if◌then◌else◌, length, In,
}
use wait_a_minute_plugin.Base.Dict
use wait_a_minute_plugin.Base.Dict.{Dict}
use wait_a_minute_plugin.Cache.{
  Options, Entry, new, get, set, has, keys, size, make_room, or_default,
}
use wait_a_minute_plugin.Cache.Kept.{oldest, get-set_cases}
use wait_a_minute_plugin.Cache.Bounded.{Op, get_op, set_op, size_op, applied}
use wait_a_minute_plugin.Cache.Listed.{applied-keys}

abbrev two_entries : Options
two_entries = record { ttl_ms = 10; max_entries = 2 }

abbrev full : Dict (Entry ℕ)
full =
    ("a", record { value = 1; expires_at = 10 }) ∷ ("b", record { value = 2; expires_at = 12 }) ∷ []

first_evicted :
    set two_entries full 5 "c" 3 none
    ≡ ("b", record { value = 2; expires_at = 12 })
      ∷ ("c", record { value = 3; expires_at = 15 })
      ∷ []
unfolding set make_room Dict.get Dict.set Dict.delete
first_evicted = refl

expired_unseen : get full 11 "a" ≡ (none, ("b", record { value = 2; expires_at = 12 }) ∷ [])
unfolding get Dict.get Dict.delete
expired_unseen = refl

get-set_cases_example : (get (set two_entries full 5 "c" 3 (some 4)) 9 "b").0 ≡ (
    if "c" =? "b"
    then (if leb 9 (5 + or_default (some 4) 10) then some 3 else none)
    else if leb 2 (length full) && (not (Dict.has full "c") && oldest full "b")
    then none
    else (get full 9 "b").0)
get-set_cases_example = get-set_cases two_entries full 5 "c" 3 (some 4) 9 "b"

abbrev ops : List (Op ℕ)
ops =
    set_op 0 "a" 1 none
    ∷ set_op 2 "b" 2 none
    ∷ get_op 3 "a"
    ∷ set_op 5 "c" 3 (some 4)
    ∷ size_op 8
    ∷ []

applied-keys_example :
    let store = applied two_entries new ops in
    (length store ≤ 1 ⊎ (length store ≤ 2))
    × ((size store 8).0 ≡ length (keys store 8))
    × ((k : String) → In k (keys store 8) ↔ ((has store 8 k).0 ≡ true))
applied-keys_example = applied-keys two_entries ops 8
