-- ===== src/Storage.antt =====
-- apps/engine/internal/storage/db.go: what the engine writes to TimescaleDB. A table is the list of
-- its rows, and an operation does what its SQL statement says. Each write of the source runs in a
-- goroutine of its own: that of a change of state, which has several statements, is a `Write` that
-- `advance` takes further by one statement, and metrics and deliveries, which only add a row, are written where they are
-- started. A statement may fail: `Faults` says which ones do. The columns `duration_ms` and `summary`, which
-- follow from the others, are left out.
use infrawatch.Prelude.{
  ℕ, suc, String, Bool, true, false, ◌||◌, ◌&&◌, List, [], ◌∷◌, ◌++◌, Option, none, some, str_eq,
  if◌then◌else◌, ltb, is_some, not,
}
use infrawatch.Prelude.Int.{ℤ}
use infrawatch.Prelude.Time.{Instant}
use infrawatch.Alerts.Dispatcher.{AlertDeliveryAttempt}
pub mod Incidents
pub mod Writes
pub mod Tests

pub record MetricRow : Type 0 where
  pub time : Instant
  pub service : String
  pub status_code : ℕ
  pub latency_ms : ℕ
  pub is_healthy : Bool
  pub error : String

pub record StateChangeRow : Type 0 where
  pub service : String
  pub from_state : String
  pub to_state : String
  pub reason : String

pub record IncidentRow : Type 0 where
  pub service : String
  pub started_at : Instant
  pub resolved_at : Option Instant
  pub root_state : String

pub record Db : Type 0 where
  pub metrics : List MetricRow
  pub state_changes : List StateChangeRow
  pub incidents : List IncidentRow
  pub alert_history : List AlertDeliveryAttempt

abbrev pub empty_db : Db
empty_db = record { metrics = []; state_changes = []; incidents = []; alert_history = [] }

-- The statements of one write that fail.
pub record Faults : Type 0 where
  pub metric_fails : Bool
  pub history_fails : Bool
  pub state_change_fails : Bool
  pub count_fails : Bool
  pub open_fails : Bool
  pub close_fails : Bool

abbrev pub no_faults : Faults
no_faults = record {
  metric_fails = false;
  history_fails = false;
  state_change_fails = false;
  count_fails = false;
  open_fails = false;
  close_fails = false;
}

unfoldable pub write_metric : Faults → Db → MetricRow → Db
write_metric f db row =
    if f.metric_fails then db else record db { metrics = db.metrics ++ row ∷ [] }

unfoldable pub write_alert_history : Faults → Db → AlertDeliveryAttempt → Db
write_alert_history f db a =
    if f.history_fails then db else record db { alert_history = db.alert_history ++ a ∷ [] }

-- Whether a row is an unresolved incident of the service.
unfoldable pub is_open_for : String → IncidentRow → Bool
is_open_for service row = str_eq row.service service && not (is_some row.resolved_at)

-- `SELECT COUNT(*) … WHERE service = $1 AND resolved_at IS NULL`.
unfoldable pub count_open : String → List IncidentRow → ℕ
count_open service [] = 0
count_open service (row ∷ rows) =
    let rest = count_open service rows in if is_open_for service row then suc rest else rest

-- `hasOpenIncident`; none where the query fails.
unfoldable pub has_open_incident : Faults → List IncidentRow → String → Option Bool
has_open_incident f rows service =
    if f.count_fails then none else some (ltb 0 (count_open service rows))

-- `openIncident`: the rows, and whether the statement was carried out.
unfoldable pub open_incident :
    Faults → List IncidentRow → String → String → Instant → List IncidentRow × Bool
open_incident f rows service root_state now = if f.open_fails then (rows, false) else (
  rows
      ++ record { service = service; started_at = now; resolved_at = none; root_state = root_state }
        ∷ [],
  true,
)

-- The UPDATE of `closeIncident`.
unfoldable pub resolve_all : String → Instant → List IncidentRow → List IncidentRow
resolve_all service now [] = []
resolve_all service now (row ∷ rows) =
    (if is_open_for service row then record row { resolved_at = some now } else row)
    ∷ resolve_all service now rows

unfoldable pub close_incident :
    Faults → List IncidentRow → String → Instant → List IncidentRow × Bool
close_incident f rows service now =
    if f.close_fails then (rows, false) else (resolve_all service now rows, true)

open_unless :
    Faults → List IncidentRow → String → String → Instant → Option Bool → List IncidentRow × Bool
open_unless f rows service to now none = (rows, false)
open_unless f rows service to now (some true) = (rows, true)
open_unless f rows service to now (some false) = open_incident f rows service to now

-- `handleIncident`: a service that turns DEAD or UNHEALTHY opens an incident, unless it has one; one
-- that turns HEALTHY or RECOVERING closes its incident.
unfoldable pub handle_incident :
    Faults → List IncidentRow → String → String → Instant → List IncidentRow × Bool
unfolding open_unless
handle_incident f rows service to now =
    if str_eq to "DEAD" || str_eq to "UNHEALTHY"
    then open_unless f rows service to now (has_open_incident f rows service)
    else (if str_eq to "HEALTHY" || str_eq to "RECOVERING"
        then close_incident f rows service now
        else (rows, true))

-- The goroutine of `WriteStateChange`, by the statement that is its next: the insert of the change, the query or the
-- update of the incidents, or the insert of an incident of a service in a state.
pub data Write : Type 0 where
  inserting deciding : StateChangeRow → Write
  opening : String → String → Write

decided : Db → StateChangeRow → Option Bool → Db × Option Write
decided db row none = (db, none)
decided db row (some true) = (db, none)
decided db row (some false) = (db, some (opening row.service row.to_state))

-- One statement of the goroutine, and what is left of it: the incident is handled also where the insert fails.
unfoldable pub advance : Faults → Db → Write → Instant → Db × Option Write
unfolding decided
advance f db (inserting row) now = (
  record db {
    state_changes = if f.state_change_fails then db.state_changes else db.state_changes ++ row ∷ [];
  },
  some (deciding row),
)
advance f db (deciding row) now =
    if str_eq row.to_state "DEAD" || str_eq row.to_state "UNHEALTHY"
    then decided db row (has_open_incident f db.incidents row.service)
    else (if str_eq row.to_state "HEALTHY" || str_eq row.to_state "RECOVERING"
        then (record db { incidents = (close_incident f db.incidents row.service now).0 }, none)
        else (db, none))
advance f db (opening service to) now =
    (record db { incidents = (open_incident f db.incidents service to now).0 }, none)
