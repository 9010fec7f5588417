-- ===== src/Cache.antt =====
-- src/context/context-cache.js: the context cache. The store is a dictionary in the order of
-- insertion; the clock is an argument, keys are texts and values are of any type without undefined.
pub mod Kept
pub mod Bounded
pub mod Listed
mod Tests
use wait_a_minute_plugin.Base.{
  ℕ, ◌+◌, String, Bool, not, ◌&&◌, Option, none, some, List, [], ◌∷◌, leb, if◌then◌else◌, length,
}
use wait_a_minute_plugin.Base.Dict
use wait_a_minute_plugin.Base.Dict.{Dict, is_some}

pub record Options : Type 0 where
  pub ttl_ms : ℕ
  pub max_entries : ℕ

pub record Entry (V : Type 0) : Type 0 where
  pub value : V
  pub expires_at : ℕ

abbrev pub or_default : Option ℕ → ℕ → ℕ
or_default none d = d
or_default (some n) d = n

module _ {V : Type 0} where
  abbrev pub new : Dict (Entry V)
  new = []

  -- now > expiresAt
  abbrev pub expired : ℕ → Entry V → Bool
  expired now e = not (leb now e.expires_at)

  unfoldable pub get : Dict (Entry V) → ℕ → String → Option V × Dict (Entry V)
  get store now key = elim (Dict.get store key) [
    | none ↦ (none, store)
    | some e ↦ if expired now e then (none, Dict.delete store key) else (some e.value, store)
  ]

  abbrev pub without_oldest : Dict (Entry V) → Dict (Entry V)
  without_oldest [] = []
  without_oldest ((oldest_key, e) ∷ store) = Dict.delete ((oldest_key, e) ∷ store) oldest_key

  unfoldable pub make_room : Options → Dict (Entry V) → String → Dict (Entry V)
  make_room o store key =
      if leb o.max_entries (length store) && not (Dict.has store key)
      then without_oldest store
      else store

  unfoldable pub set : Options → Dict (Entry V) → ℕ → String → V → Option ℕ → Dict (Entry V)
  set o store now key value custom_ttl_ms =
      Dict.set (make_room o store key) key
        (record { value = value; expires_at = now + or_default custom_ttl_ms o.ttl_ms })

  abbrev pub has : Dict (Entry V) → ℕ → String → Bool × Dict (Entry V)
  has store now key = (is_some (get store now key).0, (get store now key).1)

  unfoldable pub delete_key : Dict (Entry V) → String → Bool × Dict (Entry V)
  delete_key store key = (Dict.has store key, Dict.delete store key)

  abbrev pub clear : Dict (Entry V) → Dict (Entry V)
  clear store = []

  -- The loop of `size` deletes every expired entry.
  unfoldable pub prune : ℕ → Dict (Entry V) → Dict (Entry V)
  prune now [] = []
  prune now ((k, e) ∷ store) =
      let rest = prune now store in if expired now e then rest else (k, e) ∷ rest

  unfoldable pub size : Dict (Entry V) → ℕ → ℕ × Dict (Entry V)
  size store now = let live = prune now store in (length live, live)

  unfoldable pub keys : Dict (Entry V) → ℕ → List String
  keys [] now = []
  keys ((k, e) ∷ store) now =
      let rest = keys store now in if leb now e.expires_at then k ∷ rest else rest
