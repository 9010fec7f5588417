-- ===== src/Base/Lists.antt =====
-- Lists: length over the native numbers, the tests `some`, `every` and `includes` of arrays,
-- `filter` by a Boolean test, and membership by recursion.
use Prim.Native.Nat.{ℕ, suc, ◌+◌, ◌≤◌}
use Prim.Native.String.{String}
use mathlib.Core.Path.{◌≡◌, refl, ap, sym, subst}
use mathlib.Core.Logic.{◌⊎◌, inl, inr, ◌↔◌}
use mathlib.Core.Bool.{Bool, true, false, not, ◌&&◌, ◌||◌}
use mathlib.Core.List.{List, [], ◌∷◌, ◌++◌, map}
use mathlib.Core.Option.{Option, none, some}
use native.Mathlib.Omega.{arith}
use text.Mathlib.TextEquality.{eq_iff}
use wait_a_minute_plugin.Base.Tests.{◌==◌, if◌then◌else◌, ◌=?◌, Bool-cases}

module _ {ℓ} {A : Type ℓ} where
  abbrev pub length : List A → ℕ
  length [] = 0
  length (_ ∷ xs) = suc (length xs)

  -- `xs.length === 0`
  abbrev pub is_empty : List A → Bool
  is_empty [] = true
  is_empty (_ ∷ _) = false

  abbrev pub any : (A → Bool) → List A → Bool
  any p [] = false
  any p (x ∷ xs) = p x || any p xs

  abbrev pub all : (A → Bool) → List A → Bool
  all p [] = true
  all p (x ∷ xs) = p x && all p xs

  abbrev pub filter : (A → Bool) → List A → List A
  filter p [] = []
  filter p (x ∷ xs) = if p x then x ∷ filter p xs else filter p xs

  abbrev pub find? : (A → Bool) → List A → Option A
  find? p [] = none
  find? p (x ∷ xs) = if p x then some x else find? p xs

  pub length-append : (xs ys : List A) → length (xs ++ ys) ≡ length xs + length ys
  length-append [] ys = omega arith
  length-append (x ∷ xs) ys = omega (arith, length-append xs ys)

  pub length-filter-le : (p : A → Bool) (xs : List A) → length (filter p xs) ≤ length xs
  length-filter-le p [] = omega arith
  length-filter-le p (x ∷ xs) = ground (arith, length-filter-le p xs)

  -- Nothing is left out exactly when the test holds of every element.
  pub filter-nil_of_all :
      (p : A → Bool) (xs : List A) → all (λ x. not (p x)) xs ≡ true → filter p xs ≡ []
  filter-nil_of_all p [] h = refl
  filter-nil_of_all p (x ∷ xs) h = ground (arith, filter-nil_of_all p xs)

  pub all_of_filter-nil :
      (p : A → Bool) (xs : List A) → filter p xs ≡ [] → all (λ x. not (p x)) xs ≡ true
  all_of_filter-nil p [] h = refl
  all_of_filter-nil p (x ∷ xs) h = ground (arith, all_of_filter-nil p xs)

  pub all-append : (p : A → Bool) (xs ys : List A) → all p (xs ++ ys) ≡ (all p xs && all p ys)
  all-append p [] ys = refl
  all-append p (x ∷ xs) ys = ground (arith, all-append p xs ys)

  pub any-append : (p : A → Bool) (xs ys : List A) → any p (xs ++ ys) ≡ (any p xs || any p ys)
  any-append p [] ys = refl
  any-append p (x ∷ xs) ys = ground (arith, any-append p xs ys)

  pub filter-append :
      (p : A → Bool) (xs ys : List A) → filter p (xs ++ ys) ≡ filter p xs ++ filter p ys
  filter-append p [] ys = refl
  filter-append p (x ∷ xs) ys = one (p x) (filter-append p xs ys)
    where
      one :
          (b : Bool)
          → filter p (xs ++ ys) ≡ filter p xs ++ filter p ys
          → (if b then x ∷ filter p (xs ++ ys) else filter p (xs ++ ys))
            ≡ (if b then x ∷ filter p xs else filter p xs) ++ filter p ys
      one true h = ap (◌∷◌ x) h
      one false h = h

  pub append_nil : (xs : List A) → xs ++ [] ≡ xs
  append_nil [] = refl
  append_nil (x ∷ xs) = ap (◌∷◌ x) (append_nil xs)

  pub append_assoc : (xs ys zs : List A) → (xs ++ ys) ++ zs ≡ xs ++ (ys ++ zs)
  append_assoc [] ys zs = refl
  append_assoc (x ∷ xs) ys zs = ap (◌∷◌ x) (append_assoc xs ys zs)

  pub find?-none : (p : A → Bool) (xs : List A) → all (λ x. not (p x)) xs ≡ true → find? p xs ≡ none
  find?-none p [] h = refl
  find?-none p (x ∷ xs) h = ground (arith, find?-none p xs)

  -- The elements that fail a test are none exactly when all pass it.
  pub rejected_none :
      (p : A → Bool) (xs : List A) → (length (filter (λ x. not (p x)) xs) == 0) ≡ all p xs
  rejected_none p [] = refl
  rejected_none p (x ∷ xs) = ground (arith, rejected_none p xs)

module _ {A : Type 0} where
  -- Membership, as a choice of the position.
  abbrev pub In : A → List A → Type 0
  In a [] = ⊥
  In a (x ∷ xs) = (a ≡ x) ⊎ In a xs

  pub In-append : (xs ys : List A) (a : A) → In a (xs ++ ys) ↔ (In a xs ⊎ In a ys)
  In-append [] ys a = (λ m. inr m, λ m. elim m [ inl n ↦ absurd n | inr k ↦ k ])
  In-append (x ∷ xs) ys a = (
    λ m. elim m [
      | inl e ↦ inl (inl e)
      | inr later ↦ elim ((In-append xs ys a).0 later) [ inl k ↦ inl (inr k) | inr k ↦ inr k ]
    ],
    λ m. elim m [
      | inl k ↦ elim k [ inl e ↦ inl e | inr later ↦ inr ((In-append xs ys a).1 (inl later)) ]
      | inr k ↦ inr ((In-append xs ys a).1 (inr k))
    ],
  )

  -- No element twice.
  abbrev pub Distinct : List A → Type 0
  Distinct [] = Unit
  Distinct (x ∷ xs) = ¬ In x xs × Distinct xs

  pub Distinct-snoc : (xs : List A) (a : A) → Distinct xs → ¬ In a xs → Distinct (xs ++ a ∷ [])
  Distinct-snoc [] a d n = ((λ m. m), tt)
  Distinct-snoc (x ∷ xs) a d n = (
    λ m. elim ((In-append xs (a ∷ []) x).0 m) [
      | inl k ↦ d.0 k
      | inr k ↦ elim k [ inl e ↦ n (inl (sym e)) | inr none_ ↦ none_ ]
    ],
    Distinct-snoc xs a d.1 (λ m. n (inr m)),
  )

  pub all-In : (p : A → Bool) (xs : List A) (a : A) → all p xs ≡ true → In a xs → p a ≡ true
  all-In p [] a h m = absurd m
  all-In p (x ∷ xs) a h m = elim m [
    | inl e ↦ ground arith
    | inr later ↦ all-In p xs a (ground arith) later
  ]

  pub all_of_In : (p : A → Bool) (xs : List A) → ((a : A) → In a xs → p a ≡ true) → all p xs ≡ true
  all_of_In p [] h = refl
  all_of_In p (x ∷ xs) h = rw (h x (inl refl)) (all_of_In p xs (λ a m. h a (inr m)))

  pub any-In : (p : A → Bool) (xs : List A) → any p xs ≡ true → (a : A) × In a xs × (p a ≡ true)
  any-In p [] h = cc
  any-In p (x ∷ xs) h = elim (Bool-cases (p x)) [
    | inl e ↦ (x, inl refl, e)
    | inr e ↦ let (a, m, pa) = any-In p xs (ground arith) in (a, inr m, pa)
  ]

  pub In-any : (p : A → Bool) (xs : List A) (a : A) → In a xs → p a ≡ true → any p xs ≡ true
  In-any p [] a m h = absurd m
  In-any p (x ∷ xs) a m h = elim m [
    | inl e ↦ ground arith
    | inr later ↦ ground (arith, In-any p xs a later h)
  ]

  pub not_any-In : (p : A → Bool) (xs : List A) (a : A) → any p xs ≡ false → In a xs → p a ≡ false
  not_any-In p [] a h m = absurd m
  not_any-In p (x ∷ xs) a h m = elim m [
    | inl e ↦ ground arith
    | inr later ↦ not_any-In p xs a (ground arith) later
  ]

  pub not_any_of_In :
      (p : A → Bool) (xs : List A) → ((a : A) → In a xs → p a ≡ false) → any p xs ≡ false
  not_any_of_In p [] h = refl
  not_any_of_In p (x ∷ xs) h = rw (h x (inl refl)) (not_any_of_In p xs (λ a m. h a (inr m)))

  pub not_all-In :
      (p : A → Bool) (xs : List A) → all p xs ≡ false → (a : A) × In a xs × (p a ≡ false)
  not_all-In p [] h = cc
  not_all-In p (x ∷ xs) h = elim (Bool-cases (p x)) [
    | inl e ↦ let (a, m, pa) = not_all-In p xs (ground arith) in (a, inr m, pa)
    | inr e ↦ (x, inl refl, e)
  ]

  pub not_all_of_In :
      (p : A → Bool) (xs : List A) (a : A) → In a xs → p a ≡ false → all p xs ≡ false
  not_all_of_In p [] a m h = absurd m
  not_all_of_In p (x ∷ xs) a m h = elim m [
    | inl e ↦ ground arith
    | inr later ↦ ground (arith, not_all_of_In p xs a later h)
  ]

  pub In-filter : (p : A → Bool) (xs : List A) (a : A) → In a (filter p xs) → In a xs × (p a ≡ true)
  In-filter p [] a m = absurd m
  In-filter p (x ∷ xs) a m = elim (Bool-cases (p x)) [
    | inl e ↦
        elim (subst (λ ys. In a ys) (ap (λ b. if b then x ∷ filter p xs else filter p xs) e) m) [
          | inl same ↦ (inl same, ground arith)
          | inr later ↦ let (n, h) = In-filter p xs a later in (inr n, h)
        ]
    | inr e ↦
        let (n, h) =
          In-filter p xs a
            (subst (λ ys. In a ys) (ap (λ b. if b then x ∷ filter p xs else filter p xs) e) m) in
        (inr n, h)
  ]

  pub filter-In : (p : A → Bool) (xs : List A) (a : A) → In a xs → p a ≡ true → In a (filter p xs)
  filter-In p [] a m h = absurd m
  filter-In p (x ∷ xs) a m h = elim (Bool-cases (p x)) [
    | inl e ↦ rw e (elim m [ inl s ↦ inl s | inr later ↦ inr (filter-In p xs a later h) ])
    | inr e ↦ rw e (elim m [ inl s ↦ ground arith | inr later ↦ filter-In p xs a later h ])
  ]

-- `includes` on an array of texts.
abbrev pub includes : List String → String → Bool
includes xs s = any (λ x. x =? s) xs

pub includes-In : (xs : List String) (s : String) → (includes xs s ≡ true) ↔ In s xs
includes-In [] s = (λ h. cc, λ m. absurd m)
includes-In (x ∷ xs) s = (
  λ h. elim (Bool-cases (x =? s)) [
    | inl e ↦ inl (sym ((eq_iff x s).0 e))
    | inr e ↦ inr ((includes-In xs s).0 (ground arith))
  ],
  λ m. elim m [
    | inl e ↦ ground (arith, (eq_iff x s).1 (sym e))
    | inr later ↦ ground (arith, (includes-In xs s).1 later)
  ],
)

abbrev without : String → List String → List String
without x ys = filter (λ y. not (y =? x)) ys

without-shorter :
    (x : String) (ys : List String) → In x ys → suc (length (without x ys)) ≤ length ys
without-shorter x [] m = absurd m
without-shorter x (y ∷ ys) m = elim m [
  | inl e ↦ ground (arith, (eq_iff y x).1 (sym e), length-filter-le (λ z. not (z =? x)) ys)
  | inr later ↦ ground (arith, without-shorter x ys later)
]

-- Different elements of a list are no more than it has.
pub length-Distinct-le :
    (xs ys : List String) → Distinct xs → ((x : String) → In x xs → In x ys) → length xs ≤ length ys
length-Distinct-le [] ys d sub = omega arith
length-Distinct-le (x ∷ xs) ys d sub = omega (
  arith,
  without-shorter x ys (sub x (inl refl)),
  length-Distinct-le xs (without x ys) d.1
      λ z m. filter-In (λ y. not (y =? x)) ys z (sub z (inr m)) (ap not (other z m)),
)
  where
    other : (z : String) → In z xs → (z =? x) ≡ false
    other z m = elim (Bool-cases (z =? x)) [
      | inl e ↦ absurd (d.0 (subst (λ y. In y xs) ((eq_iff z x).0 e) m))
      | inr e ↦ e
    ]

module _ {ℓ κ} {A : Type ℓ} {B : Type κ} where
  pub any-map : (p : B → Bool) (f : A → B) (xs : List A) → any p (map f xs) ≡ any (λ x. p (f x)) xs
  any-map p f [] = refl
  any-map p f (x ∷ xs) = rw (any-map p f xs)

  pub all-map : (p : B → Bool) (f : A → B) (xs : List A) → all p (map f xs) ≡ all (λ x. p (f x)) xs
  all-map p f [] = refl
  all-map p f (x ∷ xs) = rw (all-map p f xs)

  pub length-map : (f : A → B) (xs : List A) → length (map f xs) ≡ length xs
  length-map f [] = refl
  length-map f (x ∷ xs) = ap suc (length-map f xs)

-- The names that every plain object inherits, so that `[]` and `in` find them in a table of the source.
abbrev inherited_names : List String
inherited_names =
    "constructor" ∷ "__defineGetter__" ∷ "__defineSetter__" ∷ "hasOwnProperty" ∷ "__lookupGetter__"
    ∷ "__lookupSetter__" ∷ "isPrototypeOf" ∷ "propertyIsEnumerable" ∷ "toString" ∷ "valueOf"
    ∷ "__proto__" ∷ "toLocaleString" ∷ []

unfoldable pub is_inherited : String → Bool
is_inherited s = includes inherited_names s
