-- ===== src/Limiter/Tests.antt =====
-- Runs of the rate limiter, and the theorems at a limiter of two calls in a second.
use wait_a_minute_plugin.Base.{
  ◌+◌, ◌≤◌, ◌<◌, ◌≡◌, refl, ◌↔◌, inl, inr, true, [], ◌∷◌, arith, if◌then◌else◌,
}
use wait_a_minute_plugin.Limiter.{Options, Limiter, create, try_acquire, remaining, used}
use wait_a_minute_plugin.Limiter.Windows.{try_acquire-remaining, grants, Within, grants-limit}

abbrev two_a_second : Options
two_a_second = record { limit = 2; window_ms = 1000 }

abbrev once : Limiter
once = record { window_start = 50; count = 1 }

third_waits : grants two_a_second (create 50) (60 ∷ 70 ∷ 80 ∷ 1060 ∷ []) ≡ 3
unfolding grants try_acquire
third_waits = refl

try_acquire-remaining_here :
    let (granted, l') = try_acquire two_a_second 60 once in
    ((granted ≡ true) ↔ (0 < remaining two_a_second 60 once))
    × (used two_a_second 60 l' + remaining two_a_second 60 l' ≡ 2)
    × (used two_a_second 60 l' ≡ used two_a_second 60 once + (if granted then 1 else 0))
    × (l'.count ≤ 2)
try_acquire-remaining_here = try_acquire-remaining two_a_second 60 once (omega arith) (omega arith)

one_window : Within two_a_second 50 (60 ∷ 70 ∷ 80 ∷ [])
one_window t m = elim m [
  | inl e ↦ omega (arith, e)
  | inr m1 ↦ elim m1 [
    | inl e ↦ omega (arith, e)
    | inr m2 ↦ elim m2 [ inl e ↦ omega (arith, e) | inr none_ ↦ absurd none_ ]
  ]
]

grants-limit_example :
    let g = grants two_a_second (create 50) (60 ∷ 70 ∷ 80 ∷ []) in (3 ≤ 2 → g ≡ 3) × (2 ≤ 3 → g ≡ 2)
grants-limit_example = grants-limit two_a_second 50 (60 ∷ 70 ∷ 80 ∷ []) one_window
