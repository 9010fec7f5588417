-- ===== src/Breaker.antt =====
-- src/execution/circuit-breaker.js: the breaker of unreliable calls. A call of `execute` is two
-- events, since the breaker is open to other calls while the function runs: its begin, and its
-- success or failure. Times come from the clock.
pub mod History
mod Tests
use wait_a_minute_plugin.Base.{
  ℕ, suc, ◌-◌, Bool, true, false, not, ◌||◌, List, [], ◌∷◌, leb, if◌then◌else◌,
}

pub data BreakerState : Type 0 where
  closed opened half_open : BreakerState

pub record Options : Type 0 where
  pub threshold : ℕ
  pub timeout : ℕ

-- The variables that the closures share.
pub record Breaker : Type 0 where
  pub state : BreakerState
  pub failures : ℕ
  pub opened_at : ℕ

abbrev pub create : Breaker
create = record { state = closed; failures = 0; opened_at = 0 }

-- `getState`: it is an open breaker's only way to half-open.
unfoldable pub get_state : Options → ℕ → Breaker → Breaker
get_state o now b = elim b.state [
  | opened ↦ if leb o.timeout (now - b.opened_at) then record b { state = half_open } else b
  | closed ↦ b
  | half_open ↦ b
]

abbrev pub is_open : BreakerState → Bool
is_open opened = true
is_open closed = false
is_open half_open = false

abbrev pub is_half_open : BreakerState → Bool
is_half_open half_open = true
is_half_open opened = false
is_half_open closed = false

-- The start of `execute`: whether the function is called.
unfoldable pub admits : Options → ℕ → Breaker → Bool
admits o now b = not (is_open (get_state o now b).state)

-- The ends of `execute`.
unfoldable pub succeed : Breaker → Breaker
succeed b = record b { state = closed; failures = 0 }

unfoldable pub fail : Options → ℕ → Breaker → Breaker
fail o now b =
    let failures = suc b.failures in
    if leb o.threshold failures || is_half_open b.state
    then record { state = opened; failures = failures; opened_at = now }
    else record b { failures = failures }

-- `reset`
abbrev pub reset : Breaker → Breaker
reset b = create

pub data Event : Type 0 where
  queried begun : ℕ → Event
  succeeded was_reset : Event
  failed : ℕ → Event

unfoldable pub step : Options → Event → Breaker → Breaker
step o (queried now) b = get_state o now b
step o (begun now) b = get_state o now b
step o succeeded b = succeed b
step o was_reset b = reset b
step o (failed now) b = fail o now b

-- A breaker after its events, the latest first.
unfoldable pub run : Options → List Event → Breaker
run o [] = create
run o (e ∷ events) = step o e (run o events)
