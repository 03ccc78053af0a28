-- ===== src/Api/StateStore/Rings.antt =====
-- The rings of metrics of the read model (apps/api/store/state_store.go).
use infrawatch.Prelude.{
  ◌≡◌, ◌≤◌, String, List, [], ◌∷◌, some, str_eq, push_bounded, push_bounded-length,
  push_bounded-last, length, get_last?, arith, eq_refl, if◌then◌else◌,
}
use infrawatch.Prelude.Map.{lookup, lookup-insert}
use infrawatch.Circuit.Breaker.{BreakerSnapshot}
use infrawatch.Events.{MetricEvent}
use infrawatch.Api.StateStore.{
  StateChange, StateStore, MetricPoint, StoreEvent, state_changed, polled, circuit_changed, apply,
  apply_state_change, apply_metric, update_circuit, points_of, metrics_for, max_points,
  new_state_store,
}

-- No service has more points than the ring holds.
abbrev pub RingsBounded : StateStore → Type 0
RingsBounded s = (name : String) → length (metrics_for s name) ≤ max_points

abbrev pub point : MetricEvent → MetricPoint
point evt = record {
  timestamp = evt.timestamp;
  ok = evt.ok;
  response_time_ms = evt.response_time_ms;
  status_code = evt.status_code;
  state = evt.state;
}

metrics-apply_metric :
    (s : StateStore) (evt : MetricEvent) (name : String)
    → metrics_for (apply_metric s evt) name ≡ (
        if str_eq evt.service_name name
        then push_bounded max_points (metrics_for s evt.service_name) (point evt)
        else metrics_for s name)
unfolding apply_metric metrics_for points_of
metrics-apply_metric s evt name =
    rw
      (lookup-insert name evt.service_name
        (push_bounded max_points (points_of s evt.service_name) (point evt)) s.metrics)
      ground arith

unchanged_rings :
    (s : StateStore) (evt : StateChange) → RingsBounded s → RingsBounded (apply_state_change s evt)
unfolding apply_state_change metrics_for points_of
unchanged_rings s evt b = b

circuit_rings :
    (s : StateStore) (name : String) (snap : BreakerSnapshot)
    → RingsBounded s
    → RingsBounded (update_circuit s name snap)
unfolding update_circuit metrics_for points_of
circuit_rings s name snap b = b

apply-RingsBounded : (s : StateStore) (e : StoreEvent) → RingsBounded s → RingsBounded (apply s e)
unfolding apply
apply-RingsBounded s (state_changed evt) b = unchanged_rings s evt b
apply-RingsBounded s (polled evt) b = λ name.
    rw (metrics-apply_metric s evt name) ground
      (arith, b name, push_bounded-length max_points (metrics_for s evt.service_name) (point evt))
apply-RingsBounded s (circuit_changed evt) b = circuit_rings s evt.service_name evt.snapshot b

-- The events of the streams, one after the other.
unfoldable pub run : StateStore → List StoreEvent → StateStore
run s [] = s
run s (e ∷ events) = run (apply s e) events

run-RingsBounded :
    (s : StateStore) (events : List StoreEvent) → RingsBounded s → RingsBounded (run s events)
unfolding run
run-RingsBounded s [] b = b
run-RingsBounded s (e ∷ events) b = run-RingsBounded (apply s e) events (apply-RingsBounded s e b)

new-RingsBounded : RingsBounded new_state_store
unfolding new_state_store metrics_for points_of lookup
new-RingsBounded name = omega arith

-- Whatever events arrive, in whatever order, no service ever has more than 2000 points; and after a
-- poll's event the service's last point is that poll's.
pub rings_lem :
    (events : List StoreEvent) (evt : MetricEvent) (name : String)
    → let s = run new_state_store events in
      (length (metrics_for s name) ≤ max_points)
      × (get_last? (metrics_for (apply s (polled evt)) evt.service_name) ≡ some (point evt))
unfolding apply
rings_lem events evt name =
    let s = run new_state_store events in
    (
      run-RingsBounded new_state_store events new-RingsBounded name,
      rw (metrics-apply_metric s evt evt.service_name, eq_refl evt.service_name)
          (push_bounded-last max_points (metrics_for s evt.service_name) (point evt) (omega arith)),
    )
