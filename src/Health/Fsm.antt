-- ===== src/Health/Fsm.antt =====
-- apps/engine/internal/health/state.go: the health state machine of one service. The mutex of a
-- `ServiceState` makes each method one step; a method reads the clock once, and the reading `now`
-- is its last argument. Counters are unbounded numbers (an `int` holds 2^63 - 1 polls), and the
-- floating-point uptime is the exact fraction that it rounds.
use infrawatch.Prelude.{
  ℕ, suc, ◌-◌, ◌*◌, ◌+◌, String, Bool, true, false, List, [], if◌then◌else◌, leb, ◌==◌, not,
  push_bounded, str_eq, Option, none, some,
}
use infrawatch.Prelude.Time.{Instant, zero_time}
pub mod Invariant
pub mod Graph
pub mod Streaks
pub mod History
pub mod Tests

pub data State : Type 0 where
  healthy degraded unhealthy dead recovering unknown : State

-- The constants `StateHealthy` and so on.
unfoldable pub state_name : State → String
state_name healthy = "HEALTHY"
state_name degraded = "DEGRADED"
state_name unhealthy = "UNHEALTHY"
state_name dead = "DEAD"
state_name recovering = "RECOVERING"
state_name unknown = "UNKNOWN"

-- The text of `PreviousState`.
unfoldable pub previous_name : Option State → String
previous_name none = ""
previous_name (some s) = state_name s

abbrev pub state_eq : State → State → Bool
state_eq healthy healthy = true
state_eq degraded degraded = true
state_eq unhealthy unhealthy = true
state_eq dead dead = true
state_eq recovering recovering = true
state_eq unknown unknown = true
state_eq _ _ = false

pub record Transition : Type 0 where
  pub from : State
  pub to : State
  pub reason : String
  pub timestamp : Instant

-- `previous_state` is none where the field holds the empty string, as in a new service.
pub record ServiceState : Type 0 where
  pub name : String
  pub current_state : State
  pub previous_state : Option State
  pub last_checked : Instant
  pub last_healthy : Instant
  pub consecutive_fails : ℕ
  pub consecutive_ok : ℕ
  pub response_time_ms : ℕ
  pub error_message : String
  pub transitions : List Transition
  pub total_checks : ℕ
  pub total_errors : ℕ
  pub alert_floor_active : Bool
  pub alert_floor_reason : String

unfoldable pub new_service_state : String → ServiceState
new_service_state name = record {
  name = name;
  current_state = unknown;
  previous_state = none;
  last_checked = zero_time;
  last_healthy = zero_time;
  consecutive_fails = 0;
  consecutive_ok = 0;
  response_time_ms = 0;
  error_message = "";
  transitions = [];
  total_checks = 0;
  total_errors = 0;
  alert_floor_active = false;
  alert_floor_reason = "";
}

-- The switch on the state after a passing check.
next_ok : State → ℕ → State
next_ok unknown ok = healthy
next_ok healthy ok = healthy
next_ok degraded ok = if leb 2 ok then healthy else degraded
next_ok unhealthy ok = recovering
next_ok dead ok = recovering
next_ok recovering ok = if leb 3 ok then healthy else recovering

-- The tests behind the switch of a failing check.
fall_through : ℕ → State
fall_through fails =
    if leb 5 fails
    then dead
    else (if leb 3 fails then unhealthy else (if leb 1 fails then degraded else healthy))

next_fail : State → ℕ → State
unfolding fall_through
next_fail unknown fails = if leb 1 fails then degraded else fall_through fails
next_fail healthy fails = if leb 1 fails then degraded else fall_through fails
next_fail degraded fails = if leb 3 fails then unhealthy else degraded
next_fail unhealthy fails = if leb 5 fails then dead else unhealthy
next_fail dead fails = dead
next_fail recovering fails = if leb 2 fails then unhealthy else recovering

unfoldable pub compute_next_state : ServiceState → Bool → State
unfolding next_ok next_fail
compute_next_state s true = next_ok s.current_state s.consecutive_ok
compute_next_state s false = next_fail s.current_state s.consecutive_fails

-- The reason that stands when no rule on a passing check gives one.
reason_of : State → String → String
reason_of degraded msg = if str_eq msg "" then "first health check failure" else msg
reason_of unhealthy msg = if str_eq msg "" then "3 consecutive failures" else msg
reason_of dead msg = if str_eq msg "" then "5 consecutive failures" else msg
reason_of _ msg = if str_eq msg "" then "unknown" else msg

pub transition_reason : State → State → Bool → String → String
unfolding reason_of
transition_reason from healthy true msg = "consecutive successful checks"
transition_reason from recovering true msg = "first successful check after outage"
transition_reason from to ok msg = reason_of to msg

abbrev pub max_transitions : ℕ
max_transitions = 500

-- What a poll writes before the state machine is consulted.
unfoldable pub count_check : ServiceState → Bool → ℕ → String → Instant → ServiceState
count_check s true ms msg now = record s {
  total_checks = suc s.total_checks;
  last_checked = now;
  response_time_ms = ms;
  error_message = msg;
  consecutive_fails = 0;
  consecutive_ok = suc s.consecutive_ok;
  last_healthy = now;
}
count_check s false ms msg now = record s {
  total_checks = suc s.total_checks;
  last_checked = now;
  response_time_ms = ms;
  error_message = msg;
  total_errors = suc s.total_errors;
  consecutive_fails = suc s.consecutive_fails;
  consecutive_ok = 0;
}

-- The move to `next`: the record of it is appended, and the oldest records beyond 500 are cut off.
unfoldable pub enter_state : ServiceState → State → Bool → String → Instant → ServiceState
enter_state s next ok msg now = record s {
  transitions = push_bounded max_transitions s.transitions (record {
    from = s.current_state;
    to = next;
    reason = transition_reason s.current_state next ok msg;
    timestamp = now;
  });
  previous_state = some s.current_state;
  current_state = next;
}

-- `Transition`: the new state, and whether it changed.
unfoldable pub transition : ServiceState → Bool → ℕ → String → Instant → ServiceState × State × Bool
transition s ok ms msg now =
    let c = count_check s ok ms msg now in
    let next = compute_next_state c ok in
    if state_eq next c.current_state
    then (c, c.current_state, false)
    else (enter_state c next ok msg now, next, true)

unfoldable pub set_floor : ServiceState → String → ServiceState
set_floor s reason = record s { alert_floor_active = true; alert_floor_reason = reason }

unfoldable pub clear_floor : ServiceState → ServiceState
clear_floor s = record s { alert_floor_active = false; alert_floor_reason = "" }

unfoldable pub floor : ServiceState → Bool × String
floor s = (s.alert_floor_active, s.alert_floor_reason)

-- The uptime in percent, as numerator and denominator.
pub uptime_pct : ServiceState → ℕ × ℕ
uptime_pct s =
    if s.total_checks == 0
    then (100, 1)
    else ((s.total_checks - s.total_errors) * 100, s.total_checks)

pub record ServiceStateSnapshot : Type 0 where
  pub name : String
  pub current_state : State
  pub previous_state : Option State
  pub last_checked : Instant
  pub last_healthy : Instant
  pub consecutive_fails : ℕ
  pub response_time_ms : ℕ
  pub error_message : String
  pub transitions : List Transition
  pub uptime_pct : ℕ × ℕ

unfoldable pub snapshot : ServiceState → ServiceStateSnapshot
snapshot s = record {
  name = s.name;
  current_state = s.current_state;
  previous_state = s.previous_state;
  last_checked = s.last_checked;
  last_healthy = s.last_healthy;
  consecutive_fails = s.consecutive_fails;
  response_time_ms = s.response_time_ms;
  error_message = s.error_message;
  transitions = s.transitions;
  uptime_pct = uptime_pct s;
}
