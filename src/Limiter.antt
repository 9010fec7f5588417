-- ===== src/Limiter.antt =====
-- src/integration/rate-limiter.js: the fixed-window limiter. Times come from the clock; the difference
-- of two times stops at 0, which the test against a positive window does not tell from a negative one.
pub mod Windows
mod Tests
use wait_a_minute_plugin.Base.{ℕ, suc, ◌-◌, Bool, true, false, leb, if◌then◌else◌}

pub record Options : Type 0 where
  pub limit : ℕ
  pub window_ms : ℕ

pub record Limiter : Type 0 where
  pub window_start : ℕ
  pub count : ℕ

abbrev pub create : ℕ → Limiter
create now = record { window_start = now; count = 0 }

-- now - windowStart >= windowMs
abbrev pub elapsed : Options → ℕ → Limiter → Bool
elapsed o now l = leb o.window_ms (now - l.window_start)

unfoldable pub try_acquire : Options → ℕ → Limiter → Bool × Limiter
try_acquire o now l =
    let current : Limiter = if elapsed o now l then create now else l in
    if leb o.limit current.count
    then (false, current)
    else (true, record current { count = suc current.count })

-- Math.max(0, limit - count) is the subtraction that stops at 0.
unfoldable pub remaining : Options → ℕ → Limiter → ℕ
remaining o now l = if elapsed o now l then o.limit else o.limit - l.count

unfoldable pub used : Options → ℕ → Limiter → ℕ
used o now l = if elapsed o now l then 0 else l.count

abbrev pub reset : ℕ → Limiter
reset now = create now
