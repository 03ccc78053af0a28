-- ===== src/Api/Incidents.antt =====
-- apps/api/handlers/incidents.go: the incidents that the API computes from the stream of state
-- changes, and those that it reads from the database. A message that does not decode is `none`. Times
-- are nanoseconds; a duration is kept in them, where the API prints seconds. A summary is data here, with
-- what it prints.
use infrawatch.Prelude.{
  ℕ, zero, suc, ◌/◌, ◌*◌, String, Bool, true, false, not, ◌&&◌, ◌||◌, List, [], ◌∷◌, ◌++◌, Option,
  none, some, str_eq, ltb, ◌+◌, if◌then◌else◌,
}
use Prim.Native.String.{◌++◌ as ◌+++◌}
use infrawatch.Prelude.Decimal.{decimal}
use infrawatch.Prelude.Int.{ℤ, pos}
use infrawatch.Prelude.Map.{Map, lookup, insert, delete}
use infrawatch.Prelude.Time.{Instant, since}
pub mod Own
pub mod Open
pub mod Worst
pub mod Timeline
pub mod Selection
pub mod Rows
pub mod Handlers
pub mod Listed
pub mod Tests

pub record IncidentEvent : Type 0 where
  pub timestamp : Instant
  pub from : String
  pub to : String
  pub reason : String

-- The printed summaries, and one that the database has.
pub data Summary : Type 0 where
  no_summary : Summary
  still_open : String → String → ℤ → Summary
  recovered : String → String → ℤ → Option Instant → Summary
  written : String → Summary

pub record Incident : Type 0 where
  pub id : String
  pub service_name : String
  pub started_at : Instant
  pub resolved_at : Option Instant
  pub duration : ℤ
  pub is_open : Bool
  pub timeline : List IncidentEvent
  pub summary : Summary
  pub root_state : String

-- `StateChangeEvent` of apps/engine/pkg/enginepkg.go, as far as it is read.
pub record StateChange : Type 0 where
  pub service_name : String
  pub previous_state : String
  pub new_state : String
  pub reason : String
  pub timestamp : Instant

abbrev pub is_healthy_state : String → Bool
is_healthy_state s = str_eq s "HEALTHY" || str_eq s "UNKNOWN"

-- The order of the states, 0 for any other text.
unfoldable pub order : String → ℕ
order s =
    if str_eq s "DEAD"
    then 4
    else (if str_eq s "UNHEALTHY"
        then 3
        else (if str_eq s "RECOVERING" then 2 else (if str_eq s "DEGRADED" then 1 else 0)))

unfoldable pub worse : String → List IncidentEvent → String
worse worst [] = worst
worse worst (e ∷ evts) = worse (if ltb (order worst) (order e.to) then e.to else worst) evts

unfoldable pub worst_state : List IncidentEvent → String
unfolding worse
worst_state evts = worse "DEGRADED" evts

-- `buildSummary`, when the clock reads `now`.
unfoldable pub build_summary : Instant → Incident → Summary
build_summary now inc =
    if inc.is_open
    then still_open inc.service_name (worst_state inc.timeline) (since now inc.started_at)
    else recovered inc.service_name (worst_state inc.timeline) inc.duration inc.resolved_at

abbrev pub event_of : StateChange → IncidentEvent
event_of evt = record {
  timestamp = evt.timestamp;
  from = evt.previous_state;
  to = evt.new_state;
  reason = evt.reason;
}

-- `%s-%d` of the service and the milliseconds.
abbrev pub new_incident : StateChange → Incident
new_incident evt = record {
  id = evt.service_name +++ "-" +++ decimal (evt.timestamp / 1_000_000);
  service_name = evt.service_name;
  started_at = evt.timestamp;
  resolved_at = none;
  duration = pos 0;
  is_open = true;
  timeline = event_of evt ∷ [];
  summary = no_summary;
  root_state = "";
}

abbrev pub extend : Incident → StateChange → Incident
extend inc evt = record inc { timeline = inc.timeline ++ event_of evt ∷ [] }

abbrev pub resolve : Incident → Instant → Incident
resolve inc t = record inc {
  resolved_at = some t;
  is_open = false;
  duration = since t inc.started_at;
}

abbrev pub summed : Instant → Incident → Incident
summed now inc = record inc { summary = build_summary now inc }

-- The incidents that are open, by service, and those that are closed, in the order of their closing.
pub record Books : Type 0 where
  pub opened : Map Incident
  pub closed : List Incident

unfoldable pub book_found : Instant → Books → StateChange → Option Incident → Books
book_found now b evt none =
    if is_healthy_state evt.new_state
    then b
    else record b { opened = insert evt.service_name (new_incident evt) b.opened }
book_found now b evt (some inc) =
    if is_healthy_state evt.new_state
    then record {
      opened = delete evt.service_name b.opened;
      closed = b.closed ++ summed now (resolve (extend inc evt) evt.timestamp) ∷ [];
    }
    else record b { opened = insert evt.service_name (extend inc evt) b.opened }

unfoldable pub book : Instant → Books → Option StateChange → Books
book now b none = b
book now b (some evt) = book_found now b evt (lookup evt.service_name b.opened)

unfoldable pub book_all : Instant → Books → List (Option StateChange) → Books
book_all now b [] = b
book_all now b (m ∷ msgs) = book_all now (book now b m) msgs

unfoldable pub open_ones : Instant → Map Incident → List Incident
open_ones now [] = []
open_ones now ((_, inc) ∷ m) = summed now inc ∷ open_ones now m

-- `buildIncidents`. The source adds the open incidents in the order in which Go ranges over its map,
-- which is unspecified; here it is that of the association list.
unfoldable pub build_incidents : Instant → List (Option StateChange) → List Incident
build_incidents now msgs =
    let b = book_all now (record { opened = []; closed = [] }) msgs in
    b.closed ++ open_ones now b.opened
