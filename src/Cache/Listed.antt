-- ===== src/Cache/Listed.antt =====
-- What the context cache of src/context/context-cache.js counts and lists.
use wait_a_minute_plugin.Base.{
  ℕ, ◌≤◌, String, ◌≡◌, refl, sym, subst, ◌↔◌, ◌⊎◌, inl, inr, Bool, true, false, some, List, [], ◌∷◌,
  arith, eq_iff, leb, ◌=?◌, if◌then◌else◌, length, In, Distinct,
}
use wait_a_minute_plugin.Base.Dict
use wait_a_minute_plugin.Base.Dict.{
  Dict, is_some, get-set, get-delete, length-set, length-delete-le, keys-delete, set-Distinct,
  delete-Distinct,
}
use wait_a_minute_plugin.Cache.{Options, Entry, has, new, prune, size, keys}
use wait_a_minute_plugin.Cache.Kept.{fresh, get-fresh}
use wait_a_minute_plugin.Cache.Bounded.{Op, applied, applied-Kept}

module _ {V : Type 0} where
  length-prune :
      (now : ℕ) (store : Dict (Entry V)) → length (keys store now) ≡ length (prune now store)
  unfolding prune keys
  length-prune now [] = refl
  length-prune now ((k, e) ∷ store) = ground (arith, length-prune now store)

  keys-In :
      (store : Dict (Entry V)) (now : ℕ) (k : String)
      → In k (keys store now)
      → In k (Dict.keys store)
  unfolding keys
  keys-In [] now k m = m
  keys-In ((j, e) ∷ store) now k m = one (leb now e.expires_at) m (keys-In store now k)
    where
      one :
          (b : Bool)
          → In k (if b then j ∷ keys store now else keys store now)
          → (In k (keys store now) → In k (Dict.keys store))
          → In k (j ∷ Dict.keys store)
      one true m rec = elim m [ inl q ↦ inl q | inr n ↦ inr (rec n) ]
      one false m rec = inr (rec m)

  -- A key that stands once is listed exactly if it shows a value.
  keys-fresh :
      (store : Dict (Entry V)) (now : ℕ) (k : String)
      → Distinct (Dict.keys store)
      → (In k (keys store now) ↔ (is_some (fresh now (Dict.get store k)) ≡ true))
  unfolding keys fresh Dict.get
  keys-fresh [] now k d = (λ m. absurd m, λ h. cc h)
  keys-fresh ((j, e) ∷ store) now k (out, d) =
      one (leb now e.expires_at) (j =? k) refl refl (keys-fresh store now k d)
    where
      one :
          (a b : Bool)
          → leb now e.expires_at ≡ a
          → (j =? k) ≡ b
          → (In k (keys store now) ↔ (is_some (fresh now (Dict.get store k)) ≡ true))
          → In k (if a then j ∷ keys store now else keys store now)
            ↔ (is_some (fresh now (if b then some e else Dict.get store k)) ≡ true)
      one true true p q rec = (λ m. rw p refl, λ h. inl (sym ((eq_iff j k).0 q)))
      one true false p q rec = (
        λ m. elim m [ inl r ↦ cc (q, (eq_iff j k).1 (sym r)) | inr n ↦ rec.0 n ],
        λ h. inr (rec.1 h),
      )
      one false true p q rec = (
        λ m. absurd (
            out (
              subst (λ x. In x (Dict.keys store)) (sym ((eq_iff j k).0 q))
                (keys-In store now k m))),
        λ h. cc (p, h),
      )
      one false false p q rec = rec

  -- After any calls on a new cache there are at most as many entries as allowed, or one where none is;
  -- `size` counts the keys that `keys` lists, and these are the ones that `has` finds.
  pub applied-keys :
      (o : Options) (ops : List (Op V)) (now : ℕ)
      → let store = applied o new ops in
        (length store ≤ 1 ⊎ (length store ≤ o.max_entries))
        × ((size store now).0 ≡ length (keys store now))
        × ((k : String) → In k (keys store now) ↔ ((has store now k).0 ≡ true))
  unfolding size
  applied-keys o ops now =
      let store = applied o new ops in
      let (d, few) = applied-Kept o new ops (tt, inl (omega arith)) in
      (
        few,
        sym (length-prune now store),
        λ k. rw (get-fresh store now k) (keys-fresh store now k d),
      )
