-- ===== src/Cache/Bounded.antt =====
-- The size of the context cache of src/context/context-cache.js: no key stands twice, and there are no
-- more entries than its limit.
use wait_a_minute_plugin.Base.{
  ℕ, zero, suc, ◌+◌, ◌-◌, ◌≤◌, String, ◌≡◌, refl, ◌⊎◌, inl, inr, Bool, true, false, not, ◌&&◌,
  Option, none, some, List, [], ◌∷◌, arith, eq_refl, leb, if◌then◌else◌, length, In, Distinct,
}
use wait_a_minute_plugin.Base.Dict
use wait_a_minute_plugin.Base.Dict.{
  Dict, is_some, get-set, get-delete, length-set, length-delete-le, keys-delete, set-Distinct,
  delete-Distinct,
}
use wait_a_minute_plugin.Cache.{
  Options, Entry, clear, expired, get, set, make_room, without_oldest, or_default, delete_key,
  prune, size,
}

pub data Op (V : Type 0) : Type 0 where
  get_op : ℕ → String → Op V
  set_op : ℕ → String → V → Option ℕ → Op V
  delete_op : String → Op V
  clear_op : Op V
  size_op : ℕ → Op V

fewer :
    (o : Options) (n m : ℕ) → n ≤ m → (m ≤ 1 ⊎ (m ≤ o.max_entries)) → n ≤ 1 ⊎ (n ≤ o.max_entries)
fewer o n m h few = elim few [
  | inl a ↦ inl (omega (arith, a, h))
  | inr a ↦ inr (omega (arith, a, h))
]

-- The length after a write that made room.
room :
    (o : Options) (n m : ℕ)
    → m ≤ n - 1
    → (n ≤ 1 ⊎ (n ≤ o.max_entries))
    → suc m ≤ 1 ⊎ (suc m ≤ o.max_entries)
room o zero m h few = inl (omega (arith, h))
room o (suc n) m h few = fewer o (suc m) (suc n) (omega (arith, h)) few

module _ {V : Type 0} where
  length-without_oldest :
      (store : Dict (Entry V)) → length (without_oldest store) ≤ length store - 1
  unfolding Dict.delete
  length-without_oldest [] = omega arith
  length-without_oldest ((j, e) ∷ store) = ground (arith, eq_refl j, length-delete-le store j)

  without_oldest-Distinct :
      (store : Dict (Entry V))
      → Distinct (Dict.keys store)
      → Distinct (Dict.keys (without_oldest store))
  without_oldest-Distinct [] d = d
  without_oldest-Distinct ((j, e) ∷ store) d = delete-Distinct ((j, e) ∷ store) j d

  length-prune-le : (now : ℕ) (store : Dict (Entry V)) → length (prune now store) ≤ length store
  unfolding prune
  length-prune-le now [] = omega arith
  length-prune-le now ((k, e) ∷ store) = ground (arith, length-prune-le now store)

  unfoldable pub apply : Options → Dict (Entry V) → Op V → Dict (Entry V)
  apply o store (get_op now k) = (get store now k).1
  apply o store (set_op now k v ttl) = set o store now k v ttl
  apply o store (delete_op k) = (delete_key store k).1
  apply o store clear_op = clear store
  apply o store (size_op now) = (size store now).1

  unfoldable pub applied : Options → Dict (Entry V) → List (Op V) → Dict (Entry V)
  applied o store [] = store
  applied o store (op ∷ ops) = applied o (apply o store op) ops

  -- The invariant of the store: no key stands twice, and there are at most as many entries as allowed,
  -- or one where none is.
  abbrev Kept : Options → Dict (Entry V) → Type 0
  Kept o store = Distinct (Dict.keys store) × (length store ≤ 1 ⊎ (length store ≤ o.max_entries))

  keys-prune :
      (now : ℕ) (store : Dict (Entry V)) (k : String)
      → In k (Dict.keys (prune now store))
      → In k (Dict.keys store)
  unfolding prune
  keys-prune now [] k m = m
  keys-prune now ((j, e) ∷ store) k m = one (expired now e) m (keys-prune now store k)
    where
      one :
          (b : Bool)
          → In k (Dict.keys (if b then prune now store else (j, e) ∷ prune now store))
          → (In k (Dict.keys (prune now store)) → In k (Dict.keys store))
          → In k (j ∷ Dict.keys store)
      one true m rec = inr (rec m)
      one false m rec = elim m [ inl q ↦ inl q | inr n ↦ inr (rec n) ]

  prune-Distinct :
      (now : ℕ) (store : Dict (Entry V))
      → Distinct (Dict.keys store)
      → Distinct (Dict.keys (prune now store))
  unfolding prune
  prune-Distinct now [] d = tt
  prune-Distinct now ((j, e) ∷ store) (out, d) = one (expired now e) (prune-Distinct now store d)
    where
      one :
          (b : Bool)
          → Distinct (Dict.keys (prune now store))
          → Distinct (Dict.keys (if b then prune now store else (j, e) ∷ prune now store))
      one true rec = rec
      one false rec = ((λ m. out (keys-prune now store j m)), rec)

  make_room-cases :
      (o : Options) (store : Dict (Entry V)) (k : String)
      → ((make_room o store k ≡ store) × (Dict.has store k ≡ true))
        ⊎ (((make_room o store k ≡ store) × (leb o.max_entries (length store) ≡ false))
            ⊎ (make_room o store k ≡ without_oldest store))
  unfolding make_room
  make_room-cases o store k = one (leb o.max_entries (length store)) (Dict.has store k) refl refl
    where
      one :
          (a b : Bool)
          → leb o.max_entries (length store) ≡ a
          → Dict.has store k ≡ b
          → (((if a && not b then without_oldest store else store) ≡ store) × (b ≡ true))
            ⊎ ((((if a && not b then without_oldest store else store) ≡ store) × (a ≡ false))
                ⊎ ((if a && not b then without_oldest store else store) ≡ without_oldest store))
      one true true p q = inl (refl, refl)
      one true false p q = inr (inr refl)
      one false b p q = inr (inl (refl, refl))

  set-Kept :
      (o : Options) (store : Dict (Entry V)) (now : ℕ) (k : String) (v : V) (ttl : Option ℕ)
      → Kept o store
      → Kept o (set o store now k v ttl)
  unfolding set
  set-Kept o store now k v ttl (d, few) =
      let x : Entry V = record { value = v; expires_at = now + or_default ttl o.ttl_ms } in
      elim (make_room-cases o store k) [
        | inl (same_, there) ↦
            rw same_ (set-Distinct store k x d, rw (length-set store k x, there) few)
        | inr other ↦ elim other [
          | inl (same_, below) ↦
              rw same_ (set-Distinct store k x d, inr (ground (arith, length-set store k x)))
          | inr cut ↦ rw cut (
            set-Distinct (without_oldest store) k x (without_oldest-Distinct store d),
            fewer o _ _ (ground (arith, length-set (without_oldest store) k x)) (
                room o (length store) (length (without_oldest store)) (length-without_oldest store)
                  few),
          )
        ]
      ]

  get-left :
      (store : Dict (Entry V)) (now : ℕ) (k : String)
      → ((get store now k).1 ≡ store) ⊎ ((get store now k).1 ≡ Dict.delete store k)
  unfolding get
  get-left store now k = one (Dict.get store k)
    where
      one :
          (x : Option (Entry V))
          → let r : Option V × Dict (Entry V) = elim x [
            | none ↦ (none, store)
            | some e ↦ if expired now e then (none, Dict.delete store k) else (some e.value, store)
          ] in
            (r.1 ≡ store) ⊎ (r.1 ≡ Dict.delete store k)
      one none = inl refl
      one (some e) = two (expired now e)
        where
          two :
              (b : Bool)
              → let r : Option V × Dict (Entry V) =
                  if b then (none, Dict.delete store k) else (some e.value, store) in
                (r.1 ≡ store) ⊎ (r.1 ≡ Dict.delete store k)
          two true = inr refl
          two false = inl refl

  apply-Kept :
      (o : Options) (store : Dict (Entry V)) (op : Op V) → Kept o store → Kept o (apply o store op)
  unfolding apply delete_key size
  apply-Kept o store (get_op now k) (d, few) = elim (get-left store now k) [
    | inl q ↦ rw q (d, few)
    | inr q ↦ rw q (delete-Distinct store k d, fewer o _ _ (length-delete-le store k) few)
  ]
  apply-Kept o store (set_op now k v ttl) kept = set-Kept o store now k v ttl kept
  apply-Kept o store (delete_op k) (d, few) =
      (delete-Distinct store k d, fewer o _ _ (length-delete-le store k) few)
  apply-Kept o store clear_op kept = (tt, inl (omega arith))
  apply-Kept o store (size_op now) (d, few) =
      (prune-Distinct now store d, fewer o _ _ (length-prune-le now store) few)

  pub applied-Kept :
      (o : Options) (store : Dict (Entry V)) (ops : List (Op V))
      → Kept o store
      → Kept o (applied o store ops)
  unfolding applied
  applied-Kept o store [] kept = kept
  applied-Kept o store (op ∷ ops) kept =
      applied-Kept o (apply o store op) ops (apply-Kept o store op kept)
