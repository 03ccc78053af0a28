-- ===== src/Health/Fsm/Graph.antt =====
-- The diagram of the health states, and that a poll follows it
-- (apps/engine/internal/health/state.go).
use infrawatch.Prelude.{ℕ, suc, if◌then◌else◌, ◌≡◌, ◌⊎◌, String, Bool, true, false, some, arith}
use infrawatch.Prelude.Time.{Instant}
use infrawatch.Health.Fsm.{
  State, healthy, degraded, unhealthy, dead, recovering, unknown, ServiceState, transition,
  compute_next_state, count_check, enter_state, state_eq,
}

pub data Edge : State → State → Type 0 where
  first_pass : Edge unknown healthy
  first_fail : Edge unknown degraded
  degrade : Edge healthy degraded
  steady : Edge degraded healthy
  worsen : Edge degraded unhealthy
  die : Edge unhealthy dead
  recover_unhealthy : Edge unhealthy recovering
  recover_dead : Edge dead recovering
  heal : Edge recovering healthy
  relapse : Edge recovering unhealthy

pub ruleset edges = (
  first_pass, first_fail, degrade, steady, worsen, die, recover_unhealthy, recover_dead, heal,
  relapse,
)

-- The state machine moves along an edge, or not at all.
pub compute_next_state-Edge :
    (s : ServiceState) (ok : Bool) (ms : ℕ) (msg : String) (now : Instant)
    → let c = count_check s ok ms msg now in
      state_eq (compute_next_state c ok) c.current_state ≡ false
      → Edge c.current_state (compute_next_state c ok)
unfolding count_check compute_next_state
compute_next_state-Edge s true ms msg now h = grind (arith, edges)
compute_next_state-Edge s false ms msg now h = grind (arith, edges)

-- What every poll writes, whatever state it leads to: the result is kept and counted, and the name and the alert floor stay.
pub record IsCounted (s : ServiceState) (ok : Bool) (ms : ℕ) (msg : String) (now : Instant)
    (t : ServiceState) : Type 0 where
  pub name : t.name ≡ s.name
  pub floor_active : t.alert_floor_active ≡ s.alert_floor_active
  pub floor_reason : t.alert_floor_reason ≡ s.alert_floor_reason
  pub checked : t.last_checked ≡ now
  pub took : t.response_time_ms ≡ ms
  pub says : t.error_message ≡ msg
  pub passed_at : t.last_healthy ≡ (if ok then now else s.last_healthy)
  pub checks : t.total_checks ≡ suc s.total_checks
  pub errors : t.total_errors ≡ (if ok then s.total_errors else suc s.total_errors)
  pub passes : t.consecutive_ok ≡ (if ok then suc s.consecutive_ok else 0)
  pub fails : t.consecutive_fails ≡ (if ok then 0 else suc s.consecutive_fails)

pub transition-moves :
    (s : ServiceState) (ok : Bool) (ms : ℕ) (msg : String) (now : Instant)
    → let (t, next, changed) = transition s ok ms msg now in
      ((changed ≡ false)
        × (next ≡ s.current_state)
        × (t.current_state ≡ s.current_state)
        × (t.previous_state ≡ s.previous_state)
        × (t.transitions ≡ s.transitions))
      ⊎ ((changed ≡ true)
          × (t.current_state ≡ next)
          × (t.previous_state ≡ some s.current_state)
          × Edge s.current_state next)
unfolding transition count_check enter_state compute_next_state
transition-moves s true ms msg now = grind (arith, edges)
transition-moves s false ms msg now = grind (arith, edges)
