-- ===== src/Cache/Kept.antt =====
-- What the context cache of src/context/context-cache.js shows: a fresh value until it expires or is
-- evicted as the oldest.
use wait_a_minute_plugin.Base.{
  ℕ, ◌+◌, String, ◌≡◌, refl, Bool, true, false, not, ◌&&◌, Option, none, some, [], ◌∷◌, arith, leb,
  ◌=?◌, if◌then◌else◌, length,
}
use wait_a_minute_plugin.Base.Dict
use wait_a_minute_plugin.Base.Dict.{
  Dict, is_some, get-set, get-delete, length-set, length-delete-le, keys-delete, set-Distinct,
  delete-Distinct,
}
use wait_a_minute_plugin.Cache.{Options, Entry, get, set, make_room, without_oldest, or_default}

module _ {V : Type 0} where
  -- The key that stands first is the one that was inserted first.
  abbrev pub oldest : Dict (Entry V) → String → Bool
  oldest [] k = false
  oldest ((j, _) ∷ _) k = j =? k

  get-without_oldest :
      (store : Dict (Entry V)) (k : String)
      → Dict.get (without_oldest store) k ≡ (if oldest store k then none else Dict.get store k)
  get-without_oldest [] k = refl
  get-without_oldest ((j, e) ∷ store) k = get-delete ((j, e) ∷ store) j k

  -- What `get` shows, whatever it deletes.
  unfoldable pub fresh : ℕ → Option (Entry V) → Option V
  fresh now none = none
  fresh now (some e) = if leb now e.expires_at then some e.value else none

  pub get-fresh :
      (store : Dict (Entry V)) (now : ℕ) (k : String)
      → (get store now k).0 ≡ fresh now (Dict.get store k)
  unfolding get fresh
  get-fresh store now k = ground arith

  get-make_room :
      (o : Options) (store : Dict (Entry V)) (k j : String)
      → Dict.get (make_room o store k) j ≡ (
          if leb o.max_entries (length store) && (not (Dict.has store k) && oldest store j)
          then none
          else Dict.get store j)
  unfolding make_room
  get-make_room o store k j = one (leb o.max_entries (length store)) (not (Dict.has store k))
    where
      one :
          (a b : Bool)
          → Dict.get (if a && b then without_oldest store else store) j
            ≡ (if a && (b && oldest store j) then none else Dict.get store j)
      one true true = get-without_oldest store j
      one true false = refl
      one false b = refl

  -- After a write a key shows the value until its time is up. Of the other keys, the oldest is gone
  -- where the cache was full and the key is new to it, and each other one shows what it did before.
  pub get-set_cases :
      (o : Options) (store : Dict (Entry V)) (now : ℕ) (k : String) (v : V) (ttl : Option ℕ)
      (later : ℕ) (j : String)
      → (get (set o store now k v ttl) later j).0 ≡ (
          if k =? j
          then (if leb later (now + or_default ttl o.ttl_ms) then some v else none)
          else if leb o.max_entries (length store) && (not (Dict.has store k) && oldest store j)
          then none
          else (get store later j).0)
  unfolding set fresh
  get-set_cases o store now k v ttl later j =
      rw
        (
          get-fresh (set o store now k v ttl) later j,
          get-fresh store later j,
          get-set (make_room o store k) k
              (record { value = v; expires_at = now + or_default ttl o.ttl_ms }) j,
          get-make_room o store k j,
        )
        (one (k =? j)
          (leb o.max_entries (length store) && (not (Dict.has store k) && oldest store j)))
    where
      one :
          (a b : Bool)
          → fresh later (
              if a
              then some (record { value = v; expires_at = now + or_default ttl o.ttl_ms })
              else if b
              then none
              else Dict.get store j)
            ≡ (if a
                then (if leb later (now + or_default ttl o.ttl_ms) then some v else none)
                else if b
                then none
                else fresh later (Dict.get store j))
      one true b = refl
      one false true = refl
      one false false = refl
