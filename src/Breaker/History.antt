-- ===== src/Breaker/History.antt =====
-- The breaker of src/execution/circuit-breaker.js against its history: what it answers depends only on
-- the failures since the last success or reset and on the time of the last failure.
use wait_a_minute_plugin.Base.{
  ℕ, suc, ◌-◌, ◌≤◌, ◌<◌, ◌≡◌, refl, ap, ◌↔◌, ◌⊎◌, inl, inr, Bool, true, false, not, ◌||◌, List, [],
  ◌∷◌, arith, leb, if◌then◌else◌, leb→le,
}
use wait_a_minute_plugin.Breaker.{
  closed, opened, half_open, succeeded, was_reset, BreakerState, Options, Breaker, get_state,
  admits, is_open, is_half_open, succeed, fail, Event, step, run, queried, begun, failed,
}

unfoldable pub failures_since : List Event → ℕ
failures_since [] = 0
failures_since (queried _ ∷ h) = failures_since h
failures_since (begun _ ∷ h) = failures_since h
failures_since (succeeded ∷ h) = 0
failures_since (was_reset ∷ h) = 0
failures_since (failed _ ∷ h) = suc (failures_since h)

unfoldable pub last_failure : List Event → ℕ
last_failure [] = 0
last_failure (queried _ ∷ h) = last_failure h
last_failure (begun _ ∷ h) = last_failure h
last_failure (succeeded ∷ h) = last_failure h
last_failure (was_reset ∷ h) = last_failure h
last_failure (failed t ∷ h) = t

-- The time of the latest event that reads the clock.
unfoldable pub latest : List Event → ℕ
latest [] = 0
latest (queried t ∷ h) = t
latest (begun t ∷ h) = t
latest (succeeded ∷ h) = latest h
latest (was_reset ∷ h) = latest h
latest (failed t ∷ h) = t

-- The clock does not go back.
unfoldable pub IsOrdered : List Event → Type 0
IsOrdered [] = Unit
IsOrdered (queried t ∷ h) = (latest h ≤ t) × IsOrdered h
IsOrdered (begun t ∷ h) = (latest h ≤ t) × IsOrdered h
IsOrdered (succeeded ∷ h) = IsOrdered h
IsOrdered (was_reset ∷ h) = IsOrdered h
IsOrdered (failed t ∷ h) = (latest h ≤ t) × IsOrdered h

-- What a state means for the failures since the last success, the last failure and the time.
abbrev Means : Options → BreakerState → ℕ → ℕ → ℕ → ℕ → Type 0
Means o closed since opened_at last now = since < o.threshold
Means o opened since opened_at last now = (o.threshold ≤ since) × (opened_at ≡ last)
Means o half_open since opened_at last now =
    (o.threshold ≤ since) × (opened_at ≡ last) × (o.timeout ≤ now - last)

record Agrees (o : Options) (b : Breaker) (since last now : ℕ) : Type 0 where
  counted : b.failures ≡ since
  meant : Means o b.state since b.opened_at last now

abbrev made : BreakerState → ℕ → ℕ → Breaker
made s f a = record { state = s; failures = f; opened_at = a }

module _ (o : Options) where
  get_state-Agrees :
      (t now : ℕ) (s : BreakerState) (f a since last : ℕ)
      → now ≤ t
      → Agrees o (made s f a) since last now
      → Agrees o (get_state o t (made s f a)) since last t
  unfolding get_state
  get_state-Agrees t now closed f a since last le h = record {
    counted = h.counted;
    meant = h.meant;
  }
  get_state-Agrees t now half_open f a since last le h =
      let (many, at, late) = h.meant in
      record { counted = h.counted; meant = (many, at, omega arith) }
  get_state-Agrees t now opened f a since last le h = one (leb o.timeout (t - a)) refl
    where
      one :
          (b : Bool)
          → leb o.timeout (t - a) ≡ b
          → Agrees o (if b then made half_open f a else made opened f a) since last t
      one true e =
          let (many, at) = h.meant in
          record {
            counted = h.counted;
            meant = (many, at, omega (arith, leb→le o.timeout (t - a) e, at));
          }
      one false e = record { counted = h.counted; meant = h.meant }

  fail-cases :
      (t now : ℕ) (s : BreakerState) (f a since last : ℕ)
      → Agrees o (made s f a) since last now
      → (b : Bool) → leb o.threshold (suc f) ≡ b
      → Agrees o
          (if b || is_half_open s then made opened (suc f) t else made s (suc f) a)
          (suc since)
          t
          t
  fail-cases t now s f a since last h true e = record {
    counted = ap suc h.counted;
    meant = (omega (arith, leb→le o.threshold (suc f) e, h.counted), refl);
  }
  fail-cases t now closed f a since last h false e =
      let few : suc f < o.threshold = ground arith in
      record { counted = ap suc h.counted; meant = omega (arith, h.counted) }
  fail-cases t now opened f a since last h false e =
      let few : suc f < o.threshold = ground arith in absurd (omega (arith, h.counted, h.meant.0))
  fail-cases t now half_open f a since last h false e = record {
    counted = ap suc h.counted;
    meant = (omega (arith, h.meant.0), refl);
  }

  fail-Agrees :
      (t now : ℕ) (s : BreakerState) (f a since last : ℕ)
      → now ≤ t
      → Agrees o (made s f a) since last now
      → Agrees o (fail o t (made s f a)) (suc since) t t
  unfolding fail
  fail-Agrees t now s f a since last le h =
      fail-cases t now s f a since last h (leb o.threshold (suc f)) refl

  run-Agrees :
      (h : List Event)
      → 0 < o.threshold
      → IsOrdered h
      → Agrees o (run o h) (failures_since h) (last_failure h) (latest h)
  unfolding run step succeed failures_since last_failure latest IsOrdered
  run-Agrees [] some_ ord = record { counted = refl; meant = some_ }
  run-Agrees (queried t ∷ h) some_ ord =
      get_state-Agrees t _ _ _ _ _ _ ord.0 (run-Agrees h some_ ord.1)
  run-Agrees (begun t ∷ h) some_ ord =
      get_state-Agrees t _ _ _ _ _ _ ord.0 (run-Agrees h some_ ord.1)
  run-Agrees (succeeded ∷ h) some_ ord = record { counted = refl; meant = some_ }
  run-Agrees (was_reset ∷ h) some_ ord = record { counted = refl; meant = some_ }
  run-Agrees (failed t ∷ h) some_ ord = fail-Agrees t _ _ _ _ _ _ ord.0 (run-Agrees h some_ ord.1)

  admits-Agrees :
      (t now : ℕ) (s : BreakerState) (f a since last : ℕ)
      → now ≤ t
      → Agrees o (made s f a) since last now
      → (admits o t (made s f a) ≡ true) ↔ ((since < o.threshold) ⊎ (o.timeout ≤ t - last))
  unfolding admits get_state
  admits-Agrees t now closed f a since last le h = (λ _. inl h.meant, λ _. refl)
  admits-Agrees t now half_open f a since last le h =
      let (many, at, late) = h.meant in (λ _. inr (omega arith), λ _. refl)
  admits-Agrees t now opened f a since last le h = one (leb o.timeout (t - a)) refl
    where
      one :
          (b : Bool)
          → leb o.timeout (t - a) ≡ b
          → let b' : Breaker = if b then made half_open f a else made opened f a in
            (not (is_open b'.state) ≡ true) ↔ ((since < o.threshold) ⊎ (o.timeout ≤ t - last))
      one true e =
          let (many, at) = h.meant in
          (λ _. inr (omega (arith, leb→le o.timeout (t - a) e, at)), λ _. refl)
      one false e =
          let (many, at) = h.meant in
          let late : t - a < o.timeout = ground arith in
          (
            λ c. cc c,
            λ d. elim d [ inl few ↦ absurd (omega arith) | inr over ↦ absurd (omega arith) ],
          )

-- For a threshold of at least one, after any events under a clock that does not go back, a breaker
-- counts the failures since the last success or reset, and a call is let through exactly when they
-- are fewer than the threshold or the timeout has passed since the last failure.
pub admits-failures_since :
    (o : Options) (h : List Event) (now : ℕ)
    → 0 < o.threshold
    → IsOrdered h
    → latest h ≤ now
    → ((run o h).failures ≡ failures_since h)
      × ((admits o now (run o h) ≡ true)
          ↔ ((failures_since h < o.threshold) ⊎ (o.timeout ≤ now - last_failure h)))
admits-failures_since o h now some_ ord le =
    let agrees = run-Agrees o h some_ ord in
    (
      agrees.counted,
      admits-Agrees o now (latest h) _ _ _ (failures_since h) (last_failure h) le agrees,
    )
