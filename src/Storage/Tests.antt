-- ===== src/Storage/Tests.antt =====
-- The incidents on a concrete table (apps/engine/internal/storage/db.go).
use infrawatch.Prelude.{◌≤◌, ◌≡◌, true, List, [], ◌∷◌, none, some, arith, if◌then◌else◌, str_eq}
use infrawatch.Storage.{IncidentRow, Faults, no_faults, is_open_for, count_open, handle_incident}
use infrawatch.Storage.Incidents.{
  AtMostOne, is_outage, is_end, handle_incident-AtMostOne, handle_incident_effect,
}

abbrev table : List IncidentRow
table =
    record { service = "db"; started_at = 3; resolved_at = some 4; root_state = "DEAD" }
    ∷ record { service = "db"; started_at = 5; resolved_at = none; root_state = "UNHEALTHY" }
    ∷ []

table-AtMostOne : AtMostOne table
unfolding count_open is_open_for
table-AtMostOne name = ground arith

one_open : count_open "db" table ≤ 1
one_open = table-AtMostOne "db"

closing_fails : Faults
closing_fails = record no_faults { close_fails = true }

handle_incident-AtMostOne_example :
    AtMostOne (handle_incident closing_fails table "db" "RECOVERING" 9).0
handle_incident-AtMostOne_example =
    handle_incident-AtMostOne closing_fails table "db" "RECOVERING" 9 table-AtMostOne

handle_incident_effect_example :
    count_open "db" (handle_incident no_faults table "db" "DEAD" 9).0 ≡ (
      if str_eq "db" "db"
      then (if is_outage "DEAD" then 1 else (if is_end "DEAD" then 0 else count_open "db" table))
      else count_open "db" table)
handle_incident_effect_example = handle_incident_effect table "db" "DEAD" "db" 9 one_open
