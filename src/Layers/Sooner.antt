-- ===== src/Layers/Sooner.antt =====
-- The order in which src/context/context-memory-layers.js evicts, against an order on the importance and
-- the time of the items.
use wait_a_minute_plugin.Base.{
  ℕ, ◌≤◌, ◌<◌, ◌≡◌, refl, sym, ◌∙◌, ◌⊎◌, inl, inr, Bool, true, false, ◌&&◌, ◌||◌, Option, none,
  some, List, [], ◌∷◌, arith, ltb, leb, ◌==◌, Bool-cases, In, all-In,
}
use wait_a_minute_plugin.Base.Sort.{Ordered}
use wait_a_minute_plugin.ContextItem.{Item}
use wait_a_minute_plugin.Layers.{number_or, sooner}

pub sooner_total : (x y : Item) → sooner x y ≡ false → sooner y x ≡ true
unfolding sooner
sooner_total x y h = ground arith

pub sooner_trans : (x y z : Item) → sooner x y ≡ true → sooner y z ≡ true → sooner x z ≡ true
unfolding sooner
sooner_trans x y z h k = ground arith

-- The importance of an item in thousandths, a half where there is none, and its age.
abbrev pub importance_of : Item → ℕ
importance_of i = elim i.importance [ none ↦ 500 | some n ↦ n ]

abbrev pub time_of : Item → ℕ
time_of i = elim i.timestamp [ none ↦ 0 | some t ↦ t ]

-- An item may go before another: it is less important, or as important and no younger.
abbrev pub MayGoBefore : Item → Item → Type 0
MayGoBefore a b =
    (importance_of a < importance_of b)
    ⊎ ((importance_of a ≡ importance_of b) × (time_of a ≤ time_of b))

pub importance_number : (o : Option ℕ) → number_or 500 o ≡ elim o [ none ↦ 500 | some n ↦ n ]
importance_number none = refl
importance_number (some n) = refl

pub time_number : (o : Option ℕ) → number_or 0 o ≡ elim o [ none ↦ 0 | some t ↦ t ]
time_number none = refl
time_number (some t) = refl

pub sooner_said :
    (a b : Item)
    → sooner a b ≡ (
        ltb (importance_of a) (importance_of b)
        || (importance_of a == importance_of b && leb (time_of a) (time_of b)))
unfolding sooner
sooner_said a b =
    rw
      (
        importance_number a.importance,
        importance_number b.importance,
        time_number a.timestamp,
        time_number b.timestamp,
        sooner,
      )
      refl

pub compared :
    (p q s t : ℕ) → (ltb p q || (p == q && leb s t)) ≡ true → (p < q) ⊎ ((p ≡ q) × (s ≤ t))
compared p q s t h = elim (Bool-cases (ltb p q)) [
  | inl e ↦ inl (ground arith)
  | inr e ↦ inr (ground arith, ground arith)
]

pub sooner-MayGoBefore : (a b : Item) → sooner a b ≡ true → MayGoBefore a b
sooner-MayGoBefore a b h =
    compared (importance_of a) (importance_of b) (time_of a) (time_of b) (sym (sooner_said a b) ∙ h)

-- Each item may go before all that follow it.
abbrev pub InOrder : List Item → Type 0
InOrder [] = Unit
InOrder (x ∷ xs) = ((y : Item) → In y xs → MayGoBefore x y) × InOrder xs

pub Ordered-InOrder : (xs : List Item) → Ordered sooner xs → InOrder xs
Ordered-InOrder [] o = tt
Ordered-InOrder (x ∷ xs) o =
    ((λ y m. sooner-MayGoBefore x y (all-In (sooner x) xs y o.0 m)), Ordered-InOrder xs o.1)

-- The items that are as important as they are old in the same measure.
abbrev pub alike : ℕ → ℕ → Item → Bool
alike n t i = importance_of i == n && time_of i == t

pub alike-sooner :
    (n t : ℕ) (x y : Item) → alike n t x ≡ true → alike n t y ≡ true → sooner x y ≡ true
alike-sooner n t x y h k = sooner_said x y ∙ ground arith
