-- ===== src/Api/Incidents/Rows.antt =====
-- Incidents from the database: `DBIncident` and `DBStateChange` of apps/api/store/db_reader.go, and
-- `dbIncidentToAPI` of apps/api/handlers/incidents.go.
use infrawatch.Prelude.{
  ◌+◌, ◌*◌, String, Bool, List, [], ◌∷◌, Option, none, some, str_eq, if◌then◌else◌,
}
use infrawatch.Prelude.Int.{ℤ, pos, negsuc}
use infrawatch.Prelude.Time.{Instant}
use infrawatch.Api.Incidents.{Incident, IncidentEvent, written, build_summary}

pub record DbStateChange : Type 0 where
  pub time : Instant
  pub from_state : String
  pub to_state : String
  pub reason : String

pub record DbIncident : Type 0 where
  pub id : String
  pub service : String
  pub started_at : Instant
  pub resolved_at : Option Instant
  pub duration_ms : Option ℤ
  pub summary : String
  pub root_state : String
  pub is_open : Bool
  pub timeline : List DbStateChange

abbrev pub events_of : List DbStateChange → List IncidentEvent
events_of [] = []
events_of (sc ∷ timeline) =
    record { timestamp = sc.time; from = sc.from_state; to = sc.to_state; reason = sc.reason }
    ∷ events_of timeline

abbrev milliseconds : Option ℤ → ℤ
milliseconds none = pos 0
milliseconds (some (pos n)) = pos (n * 1_000_000)
milliseconds (some (negsuc n)) = negsuc (n * 1_000_000 + 999_999)

-- `dbIncidentToAPI`.
unfoldable pub db_incident_to_api : Instant → DbIncident → Incident
db_incident_to_api now di =
    let inc : Incident = record {
      id = di.id;
      service_name = di.service;
      started_at = di.started_at;
      resolved_at = di.resolved_at;
      duration = milliseconds di.duration_ms;
      is_open = di.is_open;
      timeline = events_of di.timeline;
      summary = written di.summary;
      root_state = di.root_state;
    } in
    if str_eq di.summary "" then record inc { summary = build_summary now inc } else inc
