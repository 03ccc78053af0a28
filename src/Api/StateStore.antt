-- ===== src/Api/StateStore.antt =====
-- apps/api/store/state_store.go: the API's read model, built from the engine's events. The mutex
-- makes each update one step. What is decoded from Redis is a typed event, whose snapshot may be
-- missing; `uptime_pct` is an exact fraction. Tags and the fallback URL, which other code fills in,
-- stay empty here.
use infrawatch.Prelude.{
  ℕ, ◌*◌, String, Bool, true, false, List, [], ◌∷◌, ◌++◌, Option, none, some, get_or, push_bounded,
}
use infrawatch.Prelude.Map.{Map, lookup, insert}
use infrawatch.Prelude.Time.{Instant, zero_time}
use infrawatch.Circuit.Breaker.{BreakerSnapshot}
use infrawatch.Events.{MetricEvent, CircuitStateEvent}
pub mod Rings
pub mod Views

-- The fields of the engine's snapshot that the store reads.
pub record ViewSnapshot : Type 0 where
  pub last_checked : Instant
  pub last_healthy : Instant
  pub response_time_ms : ℕ
  pub error_message : String
  pub consecutive_fails : ℕ
  pub uptime_pct : ℕ × ℕ

pub record StateChange : Type 0 where
  pub service_name : String
  pub previous_state : String
  pub new_state : String
  pub snapshot : Option ViewSnapshot

-- `circuit` is none where the field holds the zero value.
pub record ServiceView : Type 0 where
  pub name : String
  pub state : String
  pub previous_state : String
  pub last_checked : Instant
  pub last_healthy : Instant
  pub response_time_ms : ℕ
  pub error_message : String
  pub consecutive_fails : ℕ
  pub uptime_pct : ℕ × ℕ
  pub circuit : Option BreakerSnapshot

-- `&ServiceView{Name: name}`.
unfoldable pub empty_view : String → ServiceView
empty_view name = record {
  name = name;
  state = "";
  previous_state = "";
  last_checked = zero_time;
  last_healthy = zero_time;
  response_time_ms = 0;
  error_message = "";
  consecutive_fails = 0;
  uptime_pct = (0, 1);
  circuit = none;
}

pub record MetricPoint : Type 0 where
  pub timestamp : Instant
  pub ok : Bool
  pub response_time_ms : ℕ
  pub status_code : ℕ
  pub state : String

pub record StateStore : Type 0 where
  pub services : Map ServiceView
  pub metrics : Map (List MetricPoint)
  pub circuits : Map BreakerSnapshot
  pub redis_start_id : String
  pub seeded : Bool

abbrev pub max_points : ℕ
max_points = 2_000

unfoldable pub new_state_store : StateStore
new_state_store = record {
  services = [];
  metrics = [];
  circuits = [];
  redis_start_id = "0";
  seeded = false;
}

-- A row of the last states that the database holds.
pub record LastState : Type 0 where
  pub service : String
  pub from_state : String
  pub to_state : String
  pub time : Instant
  pub reason : String

abbrev pub view_of : Map ServiceView → String → ServiceView
view_of m name = get_or (lookup name m) (empty_view name)

unfoldable pub seed : Map ServiceView → List LastState → Map ServiceView
seed m [] = m
seed m (row ∷ rows) =
    seed
      (insert row.service
        (record (view_of m row.service) {
          state = row.to_state;
          previous_state = row.from_state;
          last_checked = row.time;
          error_message = row.reason;
        })
        m)
      rows

-- What the database answers to `Initialize`: it is not configured, it fails, or gives the rows.
pub data LastStates : Type 0 where
  no_database : LastStates
  query_failed : String → LastStates
  rows : List LastState → LastStates

-- `Initialize`: the store and the error.
unfoldable pub initialize : StateStore → LastStates → StateStore × Option String
initialize s no_database = (s, none)
initialize s (query_failed e) = (s, some e)
initialize s (rows states) =
    (record s { services = seed s.services states; redis_start_id = "$"; seeded = true }, none)

-- The fields that come with the event's snapshot.
rehydrate : Option ViewSnapshot → ServiceView → ServiceView
rehydrate none v = v
rehydrate (some snap) v = record v {
  last_checked = snap.last_checked;
  last_healthy = snap.last_healthy;
  response_time_ms = snap.response_time_ms;
  error_message = snap.error_message;
  consecutive_fails = snap.consecutive_fails;
  uptime_pct = snap.uptime_pct;
}

unfoldable pub apply_state_change : StateStore → StateChange → StateStore
unfolding rehydrate
apply_state_change s evt = record s {
  services =
      insert evt.service_name
        (rehydrate evt.snapshot (record (view_of s.services evt.service_name) {
          state = evt.new_state;
          previous_state = evt.previous_state;
        }))
        s.services;
}

unfoldable pub points_of : StateStore → String → List MetricPoint
points_of s name = get_or (lookup name s.metrics) []

metric_view : MetricEvent → Option ServiceView → ServiceView
metric_view evt none = record (empty_view evt.service_name) {
  state = evt.state;
  response_time_ms = evt.response_time_ms;
  last_checked = evt.timestamp;
}
metric_view evt (some v) = record v {
  response_time_ms = evt.response_time_ms;
  last_checked = evt.timestamp;
}

unfoldable pub apply_metric : StateStore → MetricEvent → StateStore
unfolding metric_view
apply_metric s evt = record s {
  metrics =
      insert evt.service_name
        (push_bounded max_points (points_of s evt.service_name) (record {
          timestamp = evt.timestamp;
          ok = evt.ok;
          response_time_ms = evt.response_time_ms;
          status_code = evt.status_code;
          state = evt.state;
        }))
        s.metrics;
  services =
      insert evt.service_name (metric_view evt (lookup evt.service_name s.services)) s.services;
}

circuit_view : Map ServiceView → String → BreakerSnapshot → Option ServiceView → Map ServiceView
circuit_view m name snap none = m
circuit_view m name snap (some v) = insert name (record v { circuit = some snap }) m

unfoldable pub update_circuit : StateStore → String → BreakerSnapshot → StateStore
unfolding circuit_view
update_circuit s name snap = record s {
  circuits = insert name snap s.circuits;
  services = circuit_view s.services name snap (lookup name s.services);
}

-- What `Run` does with an event of one of its three streams.
pub data StoreEvent : Type 0 where
  state_changed : StateChange → StoreEvent
  polled : MetricEvent → StoreEvent
  circuit_changed : CircuitStateEvent → StoreEvent

unfoldable pub apply : StateStore → StoreEvent → StateStore
apply s (state_changed evt) = apply_state_change s evt
apply s (polled evt) = apply_metric s evt
apply s (circuit_changed evt) = update_circuit s evt.service_name evt.snapshot

unfoldable pub get_service : StateStore → String → Option ServiceView
get_service s name = lookup name s.services

unfoldable pub metrics_for : StateStore → String → List MetricPoint
metrics_for s name = points_of s name

unfoldable pub all_circuits : StateStore → Map BreakerSnapshot
all_circuits s = s.circuits
