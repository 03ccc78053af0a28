-- ===== src/Health/Manager.antt =====
-- apps/engine/internal/health/state_manager.go: the manager of the services' states, with what it
-- drives: the dispatcher of alerts, the healer and its fallbacks, the breakers, the event bus and the
-- database. A call of a method is one step. Where the source starts a goroutine for a healing
-- attempt, the service is queued in `pending`, and `run_healing` is that goroutine; the goroutines that
-- write changes of state are in `writes`, and `run_write` runs one statement of one of them.
use infrawatch.Prelude.{
  ℕ, zero, suc, ◌/◌, String, Bool, true, false, List, [], ◌∷◌, ◌++◌, Option, none, some, get_or,
  if◌then◌else◌,
}
use infrawatch.Prelude.Decimal.{decimal}
use infrawatch.Prelude.Int.{ltb_ℤ}
use infrawatch.Prelude.Map.{Map, lookup, insert}
use infrawatch.Prelude.Time.{Instant, since}
use infrawatch.Config.{ServiceConfig}
use infrawatch.Alerts.Dispatcher.{
  Alert, AlertDeliveryAttempt, Dispatcher, dispatch, record_attempts, err_string,
}
use infrawatch.Circuit.Registry.{Registry}
use infrawatch.Events.{Event, metric, state_change, healing, publish}
use infrawatch.Healing.Fallback.{Fallbacks, clear_fallback}
use infrawatch.Healing.Healer.{Backends, Healer, cooldown, heal}
use infrawatch.Health.Checker.{CheckResult, Http}
use infrawatch.Health.Fsm
use infrawatch.Health.Fsm.{
  State, healthy, degraded, unhealthy, dead, recovering, state_name, previous_name, state_eq,
  ServiceState, new_service_state, ServiceStateSnapshot, transition, set_floor, clear_floor,
}
use infrawatch.Storage.{
  Db, Faults, MetricRow, StateChangeRow, Write, inserting, write_metric, advance,
  write_alert_history,
}
use Prim.Native.String.{◌++◌ as ◌+++◌}
pub mod Effect
pub mod Incidents
pub mod Cooldown

-- What the engine calls outside: the alert channels, HTTP, the healing actions, and which statements of
-- a write to the database fail. `quote` is Go's `%q`.
pub record Outside : Type 0 where
  pub send : String → Alert → Option String
  pub http : Http
  pub backends : Backends
  pub faults : Faults
  pub quote : String → String

pub record Engine : Type 0 where
  pub states : Map ServiceState
  pub healing_attempts : Map Instant
  pub alerts : Dispatcher
  pub healer : Healer
  pub fallbacks : Fallbacks
  pub cb : Registry
  pub db : Option Db
  pub published : List Event
  pub sent : List AlertDeliveryAttempt
  pub pending : List ServiceConfig
  pub writes : List Write

-- `NewStateManager`, with what is passed to it.
unfoldable pub new_state_manager : Dispatcher → Healer → Registry → Option Db → Engine
new_state_manager alerts healer cb db = record {
  states = [];
  healing_attempts = [];
  alerts = alerts;
  healer = healer;
  fallbacks = [];
  cb = cb;
  db = db;
  published = [];
  sent = [];
  pending = [];
  writes = [];
}

-- `getOrCreateState`. The source returns a pointer into the map: a change is written back.
abbrev pub state_of : Engine → String → ServiceState
state_of e name = get_or (lookup name e.states) (new_service_state name)

abbrev pub put_state : Engine → String → ServiceState → Engine
put_state e name s = record e { states = insert name s e.states }

-- `if sm.db != nil { … }`.
abbrev pub with_db : (Db → Db) → Option Db → Option Db
with_db write none = none
with_db write (some db) = some (write db)

unfoldable pub write_attempts : Faults → List AlertDeliveryAttempt → Db → Db
write_attempts f [] db = db
write_attempts f (a ∷ attempts) db = write_attempts f attempts (write_alert_history f db a)

unfoldable pub alert_message : String → State → ServiceStateSnapshot → String
alert_message name dead snap =
    "🔴 *"
    +++ name
    +++ "* is DEAD — "
    +++ decimal snap.consecutive_fails
    +++ " consecutive failures, last response "
    +++ decimal snap.response_time_ms
    +++ "ms"
alert_message name unhealthy snap =
    "🟠 *"
    +++ name
    +++ "* is UNHEALTHY — "
    +++ decimal snap.consecutive_fails
    +++ " consecutive failures"
alert_message name degraded snap = "🟡 *" +++ name +++ "* is DEGRADED — first failure detected"
alert_message name recovering snap =
    "🔵 *" +++ name +++ "* is RECOVERING — first successful response after outage"
alert_message name healthy snap = "🟢 *" +++ name +++ "* recovered to HEALTHY"
alert_message name state snap = name +++ " transitioned to " +++ state_name state

-- The decision of `maybeTriggerHealing`, by the time of the service's last attempt.
trigger_since : Engine → ServiceConfig → Instant → Option Instant → Engine
trigger_since e svc now none = record e {
  healing_attempts = insert svc.name now e.healing_attempts;
  pending = e.pending ++ svc ∷ [];
}
trigger_since e svc now (some last) =
    if ltb_ℤ (since now last) (cooldown e.healer) then e else record e {
      healing_attempts = insert svc.name now e.healing_attempts;
      pending = e.pending ++ svc ∷ [];
    }

unfoldable pub maybe_trigger_healing : Engine → ServiceConfig → Instant → Engine
unfolding trigger_since
maybe_trigger_healing e svc now = trigger_since e svc now (lookup svc.name e.healing_attempts)

-- The goroutine of a healing attempt.
unfoldable pub run_healing : Outside → Engine → ServiceConfig → Instant → Engine
run_healing out e svc now =
    let (healer, fallbacks, posts, r) = heal out.backends e.healer e.fallbacks svc now in
    record e {
      healer = healer;
      fallbacks = fallbacks;
      published = publish e.published (
          healing (record {
            service_name = svc.name;
            action = r.action;
            success = r.success;
            error = r.error;
            timestamp = now;
          }));
    }

-- The calls for every poll: the state machine's result is kept, and the metric written and published.
unfoldable pub record_metric :
    Outside → Engine → ServiceConfig → CheckResult → ServiceState → State → Engine
record_metric out e svc result s next = record e {
  states = insert svc.name s e.states;
  db =
      with_db
        (λ db. write_metric out.faults db (record {
          time = result.timestamp;
          service = svc.name;
          status_code = result.status_code;
          latency_ms = result.response_time / 1_000_000;
          is_healthy = result.ok;
          error = err_string result.error;
        }))
        e.db;
  published = publish e.published (
      metric (record {
        service_name = svc.name;
        timestamp = result.timestamp;
        ok = result.ok;
        response_time_ms = result.response_time / 1_000_000;
        status_code = result.status_code;
        state = state_name next;
      }));
}

-- `WriteStateChange`, where there is a database: its goroutine is started.
unfoldable pub start_write : Option Db → StateChangeRow → List Write → List Write
start_write none row ws = ws
start_write (some db) row ws = ws ++ inserting row ∷ []

-- The calls for a change of state, up to the alert: its write started, it published, dispatched.
unfoldable pub announce :
    Outside → Engine → ServiceConfig → CheckResult → ServiceState → State → Instant → Engine
announce out e svc result s next now =
    let snap = Fsm.snapshot s in
    let a : Alert = record {
      service_name = svc.name;
      state = state_name next;
      previous_state = previous_name s.previous_state;
      message = alert_message svc.name next snap;
      response_time_ms = result.response_time / 1_000_000;
      timestamp = now;
    } in
    let (d, attempts) = dispatch out.send e.alerts a in
    record e {
      alerts = d;
      db = with_db (write_attempts out.faults (record_attempts d attempts)) e.db;
      writes =
          start_write e.db
            (record {
              service = svc.name;
              from_state = previous_name s.previous_state;
              to_state = state_name next;
              reason = err_string result.error;
            })
            e.writes;
      published = publish e.published (
          state_change (record {
            service_name = svc.name;
            previous_state = previous_name s.previous_state;
            new_state = state_name next;
            reason = snap.error_message;
            timestamp = now;
            snapshot = snap;
          }));
      sent = e.sent ++ attempts;
    }

write_at : ℕ → List Write → Option Write
write_at i [] = none
write_at zero (w ∷ ws) = some w
write_at (suc i) (w ∷ ws) = write_at i ws

-- What is left of a goroutine stays in its place.
replace_at : ℕ → Option Write → List Write → List Write
replace_at i next [] = []
replace_at zero none (w ∷ ws) = ws
replace_at zero (some next) (w ∷ ws) = next ∷ ws
replace_at (suc i) next (w ∷ ws) = w ∷ replace_at i next ws

run_found : Outside → Engine → ℕ → Instant → Option Db → Option Write → Engine
unfolding replace_at
run_found out e i now none w = e
run_found out e i now (some db) none = e
run_found out e i now (some db) (some w) =
    let (db', next) = advance out.faults db w now in
    record e { db = some db'; writes = replace_at i next e.writes }

-- The next statement of a goroutine that writes a change of state, the one at index `i` of those under way.
unfoldable pub run_write : Outside → Engine → ℕ → Instant → Engine
unfolding write_at run_found
run_write out e i now = run_found out e i now e.db (write_at i e.writes)

-- The calls that only DEAD and only HEALTHY make.
unfoldable pub follow_up : Engine → ServiceConfig → State → Instant → Engine
follow_up e svc dead now = maybe_trigger_healing e svc now
follow_up e svc healthy now = record e { fallbacks = clear_fallback e.fallbacks svc.name }
follow_up e svc _ now = e

-- `Record`.
unfoldable pub record_result : Outside → Engine → ServiceConfig → CheckResult → Instant → Engine
record_result out e svc result now =
    let (s, next, changed) =
      transition (state_of e svc.name) result.ok (result.response_time / 1_000_000)
        (err_string result.error) now in
    let polled = record_metric out e svc result s next in
    if changed then follow_up (announce out polled svc result s next now) svc next now else polled

-- The alert floor of a service that an external system watches.
unfoldable pub set_alert_floor : Engine → String → String → Engine
set_alert_floor e name reason = put_state e name (set_floor (state_of e name) reason)

unfoldable pub clear_alert_floor : Engine → String → Engine
clear_alert_floor e name = put_state e name (clear_floor (state_of e name))

-- Asking for the status of an unknown service makes one for it.
unfoldable pub floor_status : Engine → String → Engine × Bool × String
floor_status e name =
    let (active, reason) = Fsm.floor (state_of e name) in
    (put_state e name (state_of e name), active, reason)

unfoldable pub snapshot_found : Option ServiceState → Option ServiceStateSnapshot
snapshot_found none = none
snapshot_found (some s) = some (Fsm.snapshot s)

unfoldable pub get_snapshot : Engine → String → Option ServiceStateSnapshot
unfolding snapshot_found
get_snapshot e name = snapshot_found (lookup name e.states)

snapshots_of : Map ServiceState → List ServiceStateSnapshot
snapshots_of [] = []
snapshots_of ((_, s) ∷ m) = Fsm.snapshot s ∷ snapshots_of m

unfoldable pub all_snapshots : Engine → List ServiceStateSnapshot
unfolding snapshots_of
all_snapshots e = snapshots_of e.states
