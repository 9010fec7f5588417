-- ===== src/Base/Dict.antt =====
-- `Map` keyed by text: the entries in the order of insertion. Writing a key that is there keeps
-- its place, as in JavaScript.
use Prim.Native.Nat.{suc, ◌≤◌}
use Prim.Native.String.{String}
use mathlib.Core.Path.{◌≡◌, refl, sym, ◌∙◌}
use mathlib.Core.Logic.{◌≢◌, ◌⊎◌, inl, inr, ◌↔◌}
use mathlib.Core.Bool.{Bool, true, false}
use mathlib.Core.List.{List, [], ◌∷◌, ◌++◌}
use mathlib.Core.Option.{Option, none, some}
use native.Mathlib.Omega.{arith}
use text.Mathlib.TextEquality.{eq_iff}
use text.Mathlib.TextPositions.{eq_refl}
use wait_a_minute_plugin.Base.Tests.{if◌then◌else◌, ◌=?◌, Bool-cases}
use wait_a_minute_plugin.Base.Lists.{length, In, Distinct}

abbrev pub Dict {ℓ} : Type ℓ → Type ℓ
Dict V = List (String × V)

abbrev pub is_some {ℓ} : {V : Type ℓ} → Option V → Bool
is_some none = false
is_some (some _) = true

module _ {ℓ} {V : Type ℓ} where
  unfoldable pub get : Dict V → String → Option V
  get [] k = none
  get ((j, v) ∷ m) k = if j =? k then some v else get m k

  unfoldable pub set : Dict V → String → V → Dict V
  set [] k v = (k, v) ∷ []
  set ((j, w) ∷ m) k v = if j =? k then (j, v) ∷ m else (j, w) ∷ set m k v

  unfoldable pub delete : Dict V → String → Dict V
  delete [] k = []
  delete ((j, w) ∷ m) k = if j =? k then delete m k else (j, w) ∷ delete m k

  abbrev pub has : Dict V → String → Bool
  has m k = is_some (get m k)

  abbrev pub values : Dict V → List V
  values [] = []
  values ((_, v) ∷ m) = v ∷ values m

  abbrev pub keys : Dict V → List String
  keys [] = []
  keys ((k, _) ∷ m) = k ∷ keys m

  pub has-keys : (m : Dict V) (k : String) → has m k ≡ true → In k (keys m)
  unfolding get
  has-keys [] k h = cc h
  has-keys ((j, v) ∷ m) k h = elim (Bool-cases (j =? k)) [
    | inl e ↦ inl (sym ((eq_iff j k).0 e))
    | inr e ↦ inr (has-keys m k (ground arith))
  ]

  pub get-set :
      (m : Dict V) (k : String) (v : V) (j : String)
      → get (set m k v) j ≡ (if k =? j then some v else get m j)
  unfolding get set
  get-set [] k v j = refl
  get-set ((i, w) ∷ m) k v j = ground (arith, eq_iff k j, eq_iff i k, eq_iff i j, get-set m k v j)

  pub get-delete :
      (m : Dict V) (k j : String) → get (delete m k) j ≡ (if k =? j then none else get m j)
  unfolding get delete
  get-delete [] k j = ground arith
  get-delete ((i, w) ∷ m) k j = ground (arith, eq_iff k j, eq_iff i k, eq_iff i j, get-delete m k j)

  pub get-set_self : (m : Dict V) (k : String) (v : V) → get (set m k v) k ≡ some v
  get-set_self m k v = simp (get-set, eq_refl)

  -- A write of a new key adds one entry, and a write of an old one adds none.
  pub length-set :
      (m : Dict V) (k : String) (v : V)
      → length (set m k v) ≡ (if has m k then length m else suc (length m))
  unfolding get set
  length-set [] k v = refl
  length-set ((i, w) ∷ m) k v = ground (arith, eq_iff i k, length-set m k v)

  pub keys-set :
      (m : Dict V) (k : String) (v : V) (j : String)
      → In j (keys (set m k v)) ↔ (In j (keys m) ⊎ (j ≡ k))
  unfolding set
  keys-set [] k v j = (
    λ h. elim h [ inl q ↦ inr q | inr n ↦ absurd n ],
    λ h. elim h [ inl n ↦ absurd n | inr q ↦ inl q ],
  )
  keys-set ((i, w) ∷ m) k v j = one (i =? k) refl (keys-set m k v j)
    where
      one :
          (b : Bool)
          → (i =? k) ≡ b
          → (In j (keys (set m k v)) ↔ (In j (keys m) ⊎ (j ≡ k)))
          → In j (keys (if b then (i, v) ∷ m else (i, w) ∷ set m k v))
            ↔ (In j (i ∷ keys m) ⊎ (j ≡ k))
      one true e rec =
          (λ h. inl h, λ h. elim h [ inl m1 ↦ m1 | inr q ↦ inl (q ∙ sym ((eq_iff i k).0 e)) ])
      one false e rec = (
        λ h. elim h [
          | inl q ↦ inl (inl q)
          | inr m1 ↦ elim (rec.0 m1) [ inl m2 ↦ inl (inr m2) | inr q ↦ inr q ]
        ],
        λ h. elim h [
          | inl m1 ↦ elim m1 [ inl q ↦ inl q | inr m2 ↦ inr (rec.1 (inl m2)) ]
          | inr q ↦ inr (rec.1 (inr q))
        ],
      )

  pub keys-delete : (m : Dict V) (k j : String) → In j (keys (delete m k)) → In j (keys m) × (j ≢ k)
  unfolding delete
  keys-delete [] k j h = absurd h
  keys-delete ((i, w) ∷ m) k j h = one (i =? k) refl h (keys-delete m k j)
    where
      one :
          (b : Bool)
          → (i =? k) ≡ b
          → In j (keys (if b then delete m k else (i, w) ∷ delete m k))
          → (In j (keys (delete m k)) → In j (keys m) × (j ≢ k))
          → In j (i ∷ keys m) × (j ≢ k)
      one true e h rec = let (a, b) = rec h in (inr a, b)
      one false e h rec = elim h [
        | inl q ↦ (inl q, λ r. cc ((eq_iff i k).1 (sym q ∙ r)))
        | inr m1 ↦ let (a, b) = rec m1 in (inr a, b)
      ]

  pub set-Distinct :
      (m : Dict V) (k : String) (v : V) → Distinct (keys m) → Distinct (keys (set m k v))
  unfolding set
  set-Distinct [] k v d = ((λ n. n), tt)
  set-Distinct ((i, w) ∷ m) k v (out, d) = one (i =? k) refl (set-Distinct m k v d)
    where
      one :
          (b : Bool)
          → (i =? k) ≡ b
          → Distinct (keys (set m k v))
          → Distinct (keys (if b then (i, v) ∷ m else (i, w) ∷ set m k v))
      one true e rec = (out, d)
      one false e rec = (
        (λ h. elim ((keys-set m k v i).0 h) [ inl m1 ↦ out m1 | inr q ↦ cc (e, (eq_iff i k).1 q) ]),
        rec,
      )

  pub delete-Distinct : (m : Dict V) (k : String) → Distinct (keys m) → Distinct (keys (delete m k))
  unfolding delete
  delete-Distinct [] k d = tt
  delete-Distinct ((i, w) ∷ m) k (out, d) = one (i =? k) (delete-Distinct m k d)
    where
      one :
          (b : Bool)
          → Distinct (keys (delete m k))
          → Distinct (keys (if b then delete m k else (i, w) ∷ delete m k))
      one true rec = rec
      one false rec = ((λ h. out (keys-delete m k i h).0), rec)

  pub length-delete-le : (m : Dict V) (k : String) → length (delete m k) ≤ length m
  unfolding delete
  length-delete-le [] k = omega arith
  length-delete-le ((i, w) ∷ m) k = ground (arith, length-delete-le m k)

  pub keys-set_old : (m : Dict V) (k : String) (v : V) → has m k ≡ true → keys (set m k v) ≡ keys m
  unfolding get set
  keys-set_old [] k v h = cc h
  keys-set_old ((i, w) ∷ m) k v h = ground (arith, keys-set_old m k v)

  pub keys-set_new :
      (m : Dict V) (k : String) (v : V) → has m k ≡ false → keys (set m k v) ≡ keys m ++ k ∷ []
  unfolding get set
  keys-set_new [] k v h = refl
  keys-set_new ((i, w) ∷ m) k v h = ground (arith, keys-set_new m k v)
