-- ===== src/Circuit/Breaker/Invariant.antt =====
-- What holds of a breaker between two calls, and the moves that a call can make
-- (apps/engine/internal/circuit/breaker.go).
use infrawatch.Prelude.{suc, ◌≡◌, ◌⊎◌, List, [], ◌∷◌, arith}
use infrawatch.Prelude.Int.{pos, ◌≤ℤ◌}
use infrawatch.Prelude.Time.{Instant}
use infrawatch.Circuit.Breaker.{
  closed, opened, BreakerConfig, Breaker, new_breaker, is_open, record_success, record_failure,
  reset,
}

-- The calls that change a breaker.
pub data Call : Type 0 where
  gate success failure resets : Instant → Call

unfoldable pub step : Breaker → Call → Breaker
unfolding is_open record_success record_failure reset
step b (gate now) = (is_open b now).0
step b (success now) = record_success b now
step b (failure now) = record_failure b now
step b (resets now) = reset b now

unfoldable pub run : Breaker → List Call → Breaker
unfolding step
run b [] = b
run b (c ∷ cs) = run (step b c) cs

pub record IsValid (cfg : BreakerConfig) (b : Breaker) : Type 0 where
  pub configured : b.cfg ≡ cfg
  pub below_threshold : b.state ≡ closed → pos (suc b.consecutive_fails) ≤ℤ cfg.failure_threshold
  pub opened_fresh : b.state ≡ opened → b.consecutive_ok ≡ 0
  pub one_streak : (b.consecutive_fails ≡ 0) ⊎ (b.consecutive_ok ≡ 0)

pub new_breaker-IsValid :
    (cfg : BreakerConfig) → pos 1 ≤ℤ cfg.failure_threshold → IsValid cfg (new_breaker cfg)
unfolding new_breaker
new_breaker-IsValid cfg h = ground arith

pub step-IsValid :
    (cfg : BreakerConfig) (b : Breaker) (c : Call)
    → pos 1 ≤ℤ cfg.failure_threshold
    → IsValid cfg b
    → IsValid cfg (step b c)
unfolding step
step-IsValid cfg b (gate now) h v = ground arith
step-IsValid cfg b (success now) h v = ground arith
step-IsValid cfg b (failure now) h v = ground arith
step-IsValid cfg b (resets now) h v = ground arith

run-IsValid :
    (cfg : BreakerConfig) (b : Breaker) (cs : List Call)
    → pos 1 ≤ℤ cfg.failure_threshold
    → IsValid cfg b
    → IsValid cfg (run b cs)
unfolding run
run-IsValid cfg b [] h v = v
run-IsValid cfg b (c ∷ cs) h v = run-IsValid cfg (step b c) cs h (step-IsValid cfg b c h v)

-- Whatever calls a new breaker receives, in any order and at any times, it keeps its configuration,
-- while closed it has counted fewer consecutive failures than the threshold, an open one has no
-- success counted, and failures and successes are not counted at once. The threshold is at least 1.
pub run-new_breaker-IsValid :
    (cfg : BreakerConfig) (cs : List Call)
    → pos 1 ≤ℤ cfg.failure_threshold
    → IsValid cfg (run (new_breaker cfg) cs)
run-new_breaker-IsValid cfg cs h =
    run-IsValid cfg (new_breaker cfg) cs h (new_breaker-IsValid cfg h)
