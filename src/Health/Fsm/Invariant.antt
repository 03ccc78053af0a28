-- ===== src/Health/Fsm/Invariant.antt =====
-- What holds of a service's state between two polls (apps/engine/internal/health/state.go).
use infrawatch.Prelude.{
  ℕ, ◌+◌, ◌*◌, ◌≤◌, ◌<◌, ◌≡◌, ◌⊎◌, String, Bool, true, false, arith, length, push_bounded-length,
}
use infrawatch.Health.Fsm.{
  State, healthy, degraded, unhealthy, dead, recovering, unknown, ServiceState, new_service_state,
  transition, transition_reason, compute_next_state, count_check, enter_state, uptime_pct,
  max_transitions,
}
use infrawatch.Prelude.Time.{Instant}

-- The lengths of the current streaks that each state allows: of failures, and of passes.
abbrev pub Allowed : State → ℕ → ℕ → Type 0
Allowed unknown fails ok = (fails ≡ 0) × (ok ≡ 0)
Allowed healthy fails ok = (fails ≡ 0) × (1 ≤ ok)
Allowed degraded fails ok = (fails ≤ 2) × (ok ≤ 1) × (1 ≤ fails + ok)
Allowed unhealthy fails ok = (2 ≤ fails) × (fails ≤ 4) × (ok ≡ 0)
Allowed dead fails ok = (5 ≤ fails) × (ok ≡ 0)
Allowed recovering fails ok = (fails ≤ 1) × (ok ≤ 2) × (1 ≤ fails + ok)

pub record IsValid (s : ServiceState) : Type 0 where
  pub allowed : Allowed s.current_state s.consecutive_fails s.consecutive_ok
  pub one_streak : (s.consecutive_fails ≡ 0) ⊎ (s.consecutive_ok ≡ 0)
  pub errors_bounded : s.total_errors ≤ s.total_checks
  pub streaks_bounded : s.consecutive_fails + s.consecutive_ok ≤ s.total_checks
  pub history_bounded : length s.transitions ≤ max_transitions

pub new_service_state-IsValid : (name : String) → IsValid (new_service_state name)
unfolding new_service_state
new_service_state-IsValid name = ground arith

enter_state-bounded :
    (s : ServiceState) (next : State) (ok : Bool) (msg : String) (now : Instant)
    → length (enter_state s next ok msg now).transitions ≤ max_transitions
unfolding enter_state
enter_state-bounded s next ok msg now = push_bounded-length max_transitions s.transitions (record {
  from = s.current_state;
  to = next;
  reason = transition_reason s.current_state next ok msg;
  timestamp = now;
})

transition-bounded :
    (s : ServiceState) (ok : Bool) (ms : ℕ) (msg : String) (now : Instant)
    → length s.transitions ≤ max_transitions
    → length (transition s ok ms msg now).0.transitions ≤ max_transitions
unfolding transition count_check
transition-bounded s true ms msg now h =
    let c = count_check s true ms msg now in
    ground (arith, enter_state-bounded c (compute_next_state c true) true msg now)
transition-bounded s false ms msg now h =
    let c = count_check s false ms msg now in
    ground (arith, enter_state-bounded c (compute_next_state c false) false msg now)

-- A poll keeps the invariant: the streaks stay within what the state allows, at most one of them
-- runs, errors never outnumber checks, and the history stays within 500 records.
pub transition-IsValid :
    (s : ServiceState) (ok : Bool) (ms : ℕ) (msg : String) (now : Instant)
    → IsValid s
    → IsValid (transition s ok ms msg now).0
unfolding transition count_check enter_state compute_next_state
transition-IsValid s true ms msg now v = record {
  allowed = ground arith;
  one_streak = ground arith;
  errors_bounded = ground arith;
  streaks_bounded = ground arith;
  history_bounded = transition-bounded s true ms msg now v.history_bounded;
}
transition-IsValid s false ms msg now v = record {
  allowed = ground arith;
  one_streak = ground arith;
  errors_bounded = ground arith;
  streaks_bounded = ground arith;
  history_bounded = transition-bounded s false ms msg now v.history_bounded;
}

-- Over a valid state the uptime lies between 0 and 100 percent.
pub uptime_pct-le :
    (s : ServiceState)
    → IsValid s
    → (0 < (uptime_pct s).1) × ((uptime_pct s).0 ≤ 100 * (uptime_pct s).1)
unfolding uptime_pct
uptime_pct-le s v = ground arith
