-- ===== src/Storage/Incidents.antt =====
-- The incidents of a service (apps/engine/internal/storage/db.go).
use infrawatch.Prelude.{
  ◌+◌, ◌≤◌, ◌≡◌, String, Bool, ◌||◌, List, [], ◌∷◌, ◌++◌, none, arith, str_eq, eq_iff,
  if◌then◌else◌,
}
use infrawatch.Prelude.Time.{Instant}
use infrawatch.Storage.{
  IncidentRow, Faults, no_faults, is_open_for, count_open, has_open_incident, open_incident,
  resolve_all, close_incident, handle_incident,
}

pub count_open-append :
    (name : String) (xs ys : List IncidentRow)
    → count_open name (xs ++ ys) ≡ count_open name xs + count_open name ys
unfolding count_open
count_open-append name [] ys = omega arith
count_open-append name (x ∷ xs) ys = ground (arith, count_open-append name xs ys)

-- The unresolved incidents of `other` once those of `name` are resolved.
pub count_open-resolve_all :
    (other name : String) (now : Instant) (rows : List IncidentRow)
    → count_open other (resolve_all name now rows)
      ≡ (if str_eq name other then 0 else count_open other rows)
unfolding count_open resolve_all is_open_for
count_open-resolve_all other name now [] = ground arith
count_open-resolve_all other name now (row ∷ rows) = ground (
  arith,
  eq_iff name other,
  eq_iff row.service name,
  eq_iff row.service other,
  count_open-resolve_all other name now rows,
)

pub count_open-open :
    (other name root : String) (now : Instant)
    → count_open other
        (record { service = name; started_at = now; resolved_at = none; root_state = root } ∷ [])
      ≡ (if str_eq name other then 1 else 0)
unfolding count_open is_open_for
count_open-open other name root now = ground arith

-- No service has two unresolved incidents.
abbrev pub AtMostOne : List IncidentRow → Type 0
AtMostOne rows = (name : String) → count_open name rows ≤ 1

-- Whatever statements fail, a change of state leaves every service with at most one unresolved
-- incident, if it was so before.
pub handle_incident-AtMostOne :
    (f : Faults) (rows : List IncidentRow) (service to : String) (now : Instant)
    → AtMostOne rows
    → AtMostOne (handle_incident f rows service to now).0
unfolding handle_incident has_open_incident open_incident close_incident
handle_incident-AtMostOne f rows service to now one other = ground (
  arith,
  one other,
  eq_iff service other,
  count_open-append other rows
      (record { service = service; started_at = now; resolved_at = none; root_state = to } ∷ []),
  count_open-open other service to now,
  count_open-resolve_all other service now rows,
)

-- Which states count as an outage, and which end it.
abbrev pub is_outage : String → Bool
is_outage s = str_eq s "DEAD" || str_eq s "UNHEALTHY"

abbrev pub is_end : String → Bool
is_end s = str_eq s "HEALTHY" || str_eq s "RECOVERING"

-- If no statement fails, a service has an unresolved incident after it turned DEAD or UNHEALTHY, and
-- none after it turned HEALTHY or RECOVERING; any other state, and any other service, has as many
-- as before.
pub handle_incident_effect :
    (rows : List IncidentRow) (service to other : String) (now : Instant)
    → count_open service rows ≤ 1
    → count_open other (handle_incident no_faults rows service to now).0 ≡ (
        if str_eq service other
        then (if is_outage to then 1 else (if is_end to then 0 else count_open other rows))
        else count_open other rows)
unfolding handle_incident has_open_incident open_incident close_incident
handle_incident_effect rows service to other now one = ground (
  arith,
  eq_iff service other,
  count_open-append other rows
      (record { service = service; started_at = now; resolved_at = none; root_state = to } ∷ []),
  count_open-open other service to now,
  count_open-resolve_all other service now rows,
)
