-- ===== src/Base/Sort.antt =====
-- `sort` of an array, which keeps the order of elements that compare as equal: insertion from the
-- right under a Boolean comparison `le x y`, that x may stand before y.
use Prim.Native.Nat.{ℕ, zero, suc, ◌-◌, ◌≤◌}
use mathlib.Core.Path.{◌≡◌, refl, ap, sym, ◌∙◌, subst}
use mathlib.Core.Logic.{◌⊎◌, inl, inr, ◌↔◌}
use mathlib.Core.Bool.{Bool, true, false}
use mathlib.Core.List.{List, [], ◌∷◌, ◌++◌}
use native.Mathlib.Omega.{arith}
use wait_a_minute_plugin.Base.Tests.{if◌then◌else◌}
use wait_a_minute_plugin.Base.Lists.{length, all, filter, In, all_of_In, all-In}

module _ {A : Type 0} (le : A → A → Bool) where
  unfoldable pub insert : A → List A → List A
  insert x [] = x ∷ []
  insert x (y ∷ ys) = if le x y then x ∷ y ∷ ys else y ∷ insert x ys

  unfoldable pub sort_by : List A → List A
  sort_by [] = []
  sort_by (x ∷ xs) = insert x (sort_by xs)

  insert-In : (x : A) (ys : List A) (z : A) → In z (insert x ys) ↔ ((z ≡ x) ⊎ In z ys)
  unfolding insert
  insert-In x [] z = (λ m. m, λ m. m)
  insert-In x (y ∷ ys) z = one (le x y) (insert-In x ys z)
    where
      one :
          (b : Bool)
          → In z (insert x ys) ↔ ((z ≡ x) ⊎ In z ys)
          → In z (if b then x ∷ y ∷ ys else y ∷ insert x ys) ↔ ((z ≡ x) ⊎ ((z ≡ y) ⊎ In z ys))
      one true h = (λ m. m, λ m. m)
      one false h = (
        λ m. elim m [
          | inl e ↦ inr (inl e)
          | inr k ↦ elim (h.0 k) [ inl e ↦ inl e | inr later ↦ inr (inr later) ]
        ],
        λ m. elim m [
          | inl e ↦ inr (h.1 (inl e))
          | inr k ↦ elim k [ inl e ↦ inl e | inr later ↦ inr (h.1 (inr later)) ]
        ],
      )

  pub sort_by-In : (xs : List A) (z : A) → In z (sort_by xs) ↔ In z xs
  unfolding sort_by
  sort_by-In [] z = (λ m. m, λ m. m)
  sort_by-In (x ∷ xs) z =
      let (there, back) = insert-In x (sort_by xs) z in
      let (old, new_) = sort_by-In xs z in
      (
        λ m. elim (there m) [ inl e ↦ inl e | inr k ↦ inr (old k) ],
        λ m. back (elim m [ inl e ↦ inl e | inr k ↦ inr (new_ k) ]),
      )

  length-insert : (x : A) (ys : List A) → length (insert x ys) ≡ suc (length ys)
  unfolding insert
  length-insert x [] = refl
  length-insert x (y ∷ ys) = one (le x y) (length-insert x ys)
    where
      one :
          (b : Bool)
          → length (insert x ys) ≡ suc (length ys)
          → length (if b then x ∷ y ∷ ys else y ∷ insert x ys) ≡ suc (suc (length ys))
      one true h = refl
      one false h = ap suc h

  pub length-sort_by : (xs : List A) → length (sort_by xs) ≡ length xs
  unfolding sort_by
  length-sort_by [] = refl
  length-sort_by (x ∷ xs) = length-insert x (sort_by xs) ∙ ap suc (length-sort_by xs)

  -- Every element may stand before all that follow it.
  abbrev pub Ordered : List A → Type 0
  Ordered [] = Unit
  Ordered (x ∷ xs) = (all (le x) xs ≡ true) × Ordered xs

  -- Elements that pass a test under which they compare as equal keep their order, and none is lost.
  insert-filter :
      (p : A → Bool) (x : A) (ys : List A)
      → ((y : A) → p x ≡ true → p y ≡ true → le x y ≡ true)
      → filter p (insert x ys) ≡ filter p (x ∷ ys)
  unfolding insert
  insert-filter p x [] equal = refl
  insert-filter p x (y ∷ ys) equal =
      one (le x y) refl (p x) refl (p y) refl (insert-filter p x ys equal)
    where
      one :
          (b : Bool)
          → le x y ≡ b
          → (px : Bool) → p x ≡ px
          → (py : Bool) → p y ≡ py
          → filter p (insert x ys) ≡ (if p x then x ∷ filter p ys else filter p ys)
          → filter p (if b then x ∷ y ∷ ys else y ∷ insert x ys) ≡ (
              if p x
              then x ∷ (if p y then y ∷ filter p ys else filter p ys)
              else (if p y then y ∷ filter p ys else filter p ys))
      one true e px f py g h = refl
      one false e true f true g h = absurd (cc (equal y f g, e))
      one false e true f false g h = rw (f, g) (h ∙ rw f refl)
      one false e false f true g h = rw (f, g) (ap (◌∷◌ y) (h ∙ rw f refl))
      one false e false f false g h = rw (f, g) (h ∙ rw f refl)

  pub sort_by-filter :
      (p : A → Bool) (xs : List A)
      → ((x y : A) → p x ≡ true → p y ≡ true → le x y ≡ true)
      → filter p (sort_by xs) ≡ filter p xs
  unfolding sort_by
  sort_by-filter p [] equal = refl
  sort_by-filter p (x ∷ xs) equal =
      insert-filter p x (sort_by xs) (equal x)
      ∙ ap (λ r. if p x then x ∷ r else r) (sort_by-filter p xs equal)

-- A comparison that is total and transitive sorts.
module _ {A : Type 0} (le : A → A → Bool) (total : (x y : A) → le x y ≡ false → le y x ≡ true)
    (trans : (x y z : A) → le x y ≡ true → le y z ≡ true → le x z ≡ true) where
  insert-Ordered : (x : A) (ys : List A) → Ordered le ys → Ordered le (insert le x ys)
  unfolding insert
  insert-Ordered x [] o = (refl, tt)
  insert-Ordered x (y ∷ ys) o = one (le x y) refl (insert-Ordered x ys o.1)
    where
      one :
          (b : Bool)
          → le x y ≡ b
          → Ordered le (insert le x ys)
          → Ordered le (if b then x ∷ y ∷ ys else y ∷ insert le x ys)
      one true e rest =
          (rw e (all_of_In (le x) ys λ z m. trans x y z e (all-In (le y) ys z o.0 m)), o)
      one false e rest = (
        all_of_In (le y) (insert le x ys) λ z m. elim ((insert-In le x ys z).0 m) [
          | inl s ↦ subst (λ w. le y w ≡ true) (sym s) (total x y e)
          | inr k ↦ all-In (le y) ys z o.0 k
        ],
        rest,
      )

  pub sort_by-Ordered : (xs : List A) → Ordered le (sort_by le xs)
  unfolding sort_by
  sort_by-Ordered [] = tt
  sort_by-Ordered (x ∷ xs) = insert-Ordered x (sort_by le xs) (sort_by-Ordered xs)

-- The first n elements, and the rest.
module _ {A : Type 0} where
  unfoldable pub take : ℕ → List A → List A
  take zero xs = []
  take (suc n) [] = []
  take (suc n) (x ∷ xs) = x ∷ take n xs

  unfoldable pub rest_of : ℕ → List A → List A
  rest_of zero xs = xs
  rest_of (suc n) [] = []
  rest_of (suc n) (x ∷ xs) = rest_of n xs

  pub take-rest : (n : ℕ) (xs : List A) → take n xs ++ rest_of n xs ≡ xs
  unfolding take rest_of
  take-rest zero xs = refl
  take-rest (suc n) [] = refl
  take-rest (suc n) (x ∷ xs) = ap (◌∷◌ x) (take-rest n xs)

  pub length-take : (n : ℕ) (xs : List A) → n ≤ length xs → length (take n xs) ≡ n
  unfolding take
  length-take zero xs h = refl
  length-take (suc n) [] h = absurd (omega arith)
  length-take (suc n) (x ∷ xs) h = ap suc (length-take n xs (omega arith))

  pub length-rest_of : (n : ℕ) (xs : List A) → length (rest_of n xs) ≡ length xs - n
  unfolding rest_of
  length-rest_of zero xs = omega arith
  length-rest_of (suc n) [] = omega arith
  length-rest_of (suc n) (x ∷ xs) = omega (arith, length-rest_of n xs)

  pub take-In : (n : ℕ) (xs : List A) (a : A) → In a (take n xs) → In a xs
  unfolding take
  take-In zero xs a m = absurd m
  take-In (suc n) [] a m = absurd m
  take-In (suc n) (x ∷ xs) a m = elim m [ inl e ↦ inl e | inr k ↦ inr (take-In n xs a k) ]

  rest_of-In : (n : ℕ) (xs : List A) (a : A) → In a (rest_of n xs) → In a xs
  unfolding rest_of
  rest_of-In zero xs a m = m
  rest_of-In (suc n) [] a m = absurd m
  rest_of-In (suc n) (x ∷ xs) a m = inr (rest_of-In n xs a m)

  -- In an ordered list each of the first elements may stand before each of the rest.
  pub take-before :
      (le : A → A → Bool) (n : ℕ) (xs : List A) (a b : A)
      → Ordered le xs
      → In a (take n xs)
      → In b (rest_of n xs)
      → le a b ≡ true
  unfolding take rest_of
  take-before le zero xs a b o m k = absurd m
  take-before le (suc n) [] a b o m k = absurd m
  take-before le (suc n) (x ∷ xs) a b o m k = elim m [
    | inl e ↦ subst (λ z. le z b ≡ true) (sym e) (all-In (le x) xs b o.0 (rest_of-In n xs b k))
    | inr later ↦ take-before le n xs a b o.1 later k
  ]
