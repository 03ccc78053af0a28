-- ===== src/Circuit/Breaker.antt =====
-- apps/engine/internal/circuit/breaker.go: the circuit breaker of one service. The mutex makes each
-- method one step, which reads the clock once; the reading `now` is its last argument.
use infrawatch.Prelude.{ℕ, suc, Bool, true, false, if◌then◌else◌}
use infrawatch.Prelude.Int.{ℤ, pos, leb_ℤ}
use infrawatch.Prelude.Time.{Instant, zero_time, since}
pub mod Invariant
pub mod Protocol

pub data BreakerState : Type 0 where
  closed opened half_open : BreakerState

pub record BreakerConfig : Type 0 where
  pub failure_threshold : ℤ
  pub success_threshold : ℤ
  pub timeout : ℤ

pub record Breaker : Type 0 where
  pub cfg : BreakerConfig
  pub state : BreakerState
  pub consecutive_fails : ℕ
  pub consecutive_ok : ℕ
  pub opened_at : Instant
  pub last_transition : Instant

unfoldable pub new_breaker : BreakerConfig → Breaker
new_breaker cfg = record {
  cfg = cfg;
  state = closed;
  consecutive_fails = 0;
  consecutive_ok = 0;
  opened_at = zero_time;
  last_transition = zero_time;
}

pub transition_to : Breaker → BreakerState → Instant → Breaker
transition_to b closed now = record b {
  state = closed;
  last_transition = now;
  consecutive_fails = 0;
}
transition_to b opened now = record b {
  state = opened;
  last_transition = now;
  opened_at = now;
  consecutive_ok = 0;
}
transition_to b half_open now = record b { state = half_open; last_transition = now }

is_open_at : BreakerState → Breaker → Instant → Breaker × Bool
unfolding transition_to
is_open_at opened b now =
    if leb_ℤ b.cfg.timeout (since now b.opened_at)
    then (transition_to b half_open now, false)
    else (b, true)
is_open_at _ b now = (b, false)

-- `IsOpen`: whether a real check is to be skipped. An open breaker whose timeout is over becomes
-- half-open.
unfoldable pub is_open : Breaker → Instant → Breaker × Bool
unfolding is_open_at
is_open b now = is_open_at b.state b now

success_at : BreakerState → Breaker → Instant → Breaker
unfolding transition_to
success_at half_open b now =
    if leb_ℤ b.cfg.success_threshold (pos b.consecutive_ok) then transition_to b closed now else b
success_at opened b now = transition_to b half_open now
success_at closed b now = b

unfoldable pub record_success : Breaker → Instant → Breaker
unfolding success_at
record_success b now =
    success_at b.state (record b { consecutive_fails = 0; consecutive_ok = suc b.consecutive_ok })
      now

failure_at : BreakerState → Breaker → Instant → Breaker
unfolding transition_to
failure_at closed b now =
    if leb_ℤ b.cfg.failure_threshold (pos b.consecutive_fails)
    then transition_to b opened now
    else b
failure_at half_open b now = transition_to b opened now
failure_at opened b now = b

unfoldable pub record_failure : Breaker → Instant → Breaker
unfolding failure_at
record_failure b now =
    failure_at b.state
      (record b { consecutive_ok = 0; consecutive_fails = suc b.consecutive_fails }) now

-- `Reset`, which the REST API asks for.
unfoldable pub reset : Breaker → Instant → Breaker
unfolding transition_to
reset b now = transition_to (record b { consecutive_fails = 0; consecutive_ok = 0 }) closed now

pub record BreakerSnapshot : Type 0 where
  pub state : BreakerState
  pub consecutive_fails : ℕ
  pub opened_at : Instant
  pub last_transition : Instant

unfoldable pub snapshot : Breaker → BreakerSnapshot
snapshot b = record {
  state = b.state;
  consecutive_fails = b.consecutive_fails;
  opened_at = b.opened_at;
  last_transition = b.last_transition;
}
