-- ===== src/Api/Incidents/Tests.antt =====
-- State changes for the theorems on the incidents of apps/api/handlers/incidents.go.
use infrawatch.Prelude.{
  ◌≡◌, inl, String, false, List, [], ◌∷◌, Option, none, some, All, if◌then◌else◌,
}
use infrawatch.Prelude.Time.{Instant, seconds}
use infrawatch.Api.Incidents.{IncidentEvent, StateChange, event_of, build_incidents}
use infrawatch.Api.Incidents.Handlers.{Sources}
use infrawatch.Api.Incidents.Open.{count_open, is_bad, build_incidents-open}
use infrawatch.Api.Incidents.Timeline.{IsTold, build_incidents-IsTold}

abbrev change : String → String → String → Instant → StateChange
change service before after t = record {
  service_name = service;
  previous_state = before;
  new_state = after;
  reason = "3 consecutive failures";
  timestamp = t;
}

-- The database fails and recovers, the cache is still down; one message is damaged.
abbrev msgs : List (Option StateChange)
msgs =
    some (change "db" "HEALTHY" "DEGRADED" (seconds 10))
    ∷ some (change "db" "DEGRADED" "DEAD" (seconds 20))
    ∷ none
    ∷ some (change "cache" "HEALTHY" "DEGRADED" (seconds 30))
    ∷ some (change "db" "DEAD" "RECOVERING" (seconds 40))
    ∷ some (change "db" "RECOVERING" "HEALTHY" (seconds 50))
    ∷ []

abbrev src : Sources
src = record { config = inl []; db = none; messages = inl msgs; now = seconds 60 }

abbrev evts : List IncidentEvent
evts =
    event_of (change "db" "HEALTHY" "DEGRADED" 1) ∷ event_of (change "db" "DEGRADED" "DEAD" 2) ∷ []

build_incidents-open_example :
    count_open "cache" (build_incidents (seconds 60) msgs)
    ≡ (if is_bad "cache" false msgs then 1 else 0)
build_incidents-open_example = build_incidents-open (seconds 60) "cache" msgs

build_incidents-IsTold_example : All (IsTold (seconds 60)) (build_incidents (seconds 60) msgs)
build_incidents-IsTold_example = build_incidents-IsTold (seconds 60) msgs
