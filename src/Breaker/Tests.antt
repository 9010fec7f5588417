-- ===== src/Breaker/Tests.antt =====
-- Runs of the circuit breaker, and its theorem after two failures.
use wait_a_minute_plugin.Base.{
  ◌-◌, ◌≤◌, ◌<◌, ◌≡◌, refl, ◌↔◌, ◌⊎◌, true, false, List, [], ◌∷◌, arith,
}
use wait_a_minute_plugin.Breaker.{Options, admits, Event, begun, failed, run, get_state, step, fail}
use wait_a_minute_plugin.Breaker.History.{
  failures_since, last_failure, latest, IsOrdered, admits-failures_since,
}

abbrev twice : Options
twice = record { threshold = 2; timeout = 100 }

-- Two calls that failed at 10 and 20, the latest first.
abbrev two_failures : List Event
two_failures = failed 20 ∷ begun 12 ∷ failed 10 ∷ begun 5 ∷ []

rejects : admits twice 50 (run twice two_failures) ≡ false
unfolding admits run get_state step fail
rejects = refl

probes : admits twice 120 (run twice two_failures) ≡ true
unfolding admits run get_state step fail
probes = refl

clock : IsOrdered two_failures
unfolding IsOrdered latest
clock = (omega arith, (omega arith, (omega arith, (omega arith, tt))))

clock_now : latest two_failures ≤ 120
unfolding latest
clock_now = omega arith

admits-failures_since_example :
    ((run twice two_failures).failures ≡ failures_since two_failures)
    × ((admits twice 120 (run twice two_failures) ≡ true)
        ↔ ((failures_since two_failures < 2) ⊎ (100 ≤ 120 - last_failure two_failures)))
admits-failures_since_example =
    admits-failures_since twice two_failures 120 (omega arith) clock clock_now
