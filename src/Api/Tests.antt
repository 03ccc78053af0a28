-- ===== src/Api/Tests.antt =====
-- The rate limiter and the read model on concrete requests and events
-- (apps/api/middleware/ratelimit.go, apps/api/store/state_store.go).
use infrawatch.Prelude.{
  ◌≤◌, ◌<◌, ◌≡◌, refl, false, List, [], ◌∷◌, none, some, arith, length, get_last?,
}
use infrawatch.Prelude.Int.{pos}
use infrawatch.Prelude.Map.{lookup, Distinct}
use infrawatch.Events.{MetricEvent}
use infrawatch.Api.RateLimit.{FixedWindowLimiter, allow, cleanup}
use infrawatch.Api.RateLimit.Bounded.{allowed, requests_bounded}
use infrawatch.Api.RateLimit.Cleanup.{cleanup_invisible}
use infrawatch.Api.StateStore.{
  StoreEvent, state_changed, polled, new_state_store, apply, metrics_for, max_points,
}
use infrawatch.Api.StateStore.Rings.{run, point, rings_lem}

abbrev limiter : FixedWindowLimiter
limiter = record {
  clients = ("10.0.0.1", record { count = 2; window_end = 3 }) ∷ [];
  max = pos 2;
  window = 60;
}

its_window_ended : 3 < 5
its_window_ended = omega arith

window_found : lookup "10.0.0.1" limiter.clients ≡ some (record { count = 2; window_end = 3 })
unfolding lookup
window_found = refl

requests_bounded_example : allowed limiter "10.0.0.1" (5 ∷ 6 ∷ 65 ∷ []) ≤ 2
unfolding lookup
requests_bounded_example =
    requests_bounded limiter "10.0.0.1" 2 5 (6 ∷ 65 ∷ []) refl (omega arith) its_window_ended
      (omega arith, (omega arith, tt))

limiter-Distinct : Distinct limiter.clients
unfolding lookup
limiter-Distinct = (refl, tt)

cleanup_invisible_example :
    let (cleaned, ok) = allow (cleanup limiter 100) "10.0.0.1" 110 in
    let (left, ok') = allow limiter "10.0.0.1" 110 in
    (ok ≡ ok') × (lookup "10.0.0.1" cleaned.clients ≡ lookup "10.0.0.1" left.clients)
cleanup_invisible_example =
    cleanup_invisible limiter "10.0.0.1" 100 110 limiter-Distinct (omega arith)

abbrev a_poll : MetricEvent
a_poll = record {
  service_name = "db";
  timestamp = 5;
  ok = false;
  response_time_ms = 12;
  status_code = 500;
  state = "DEGRADED";
}

abbrev events : List StoreEvent
events =
    state_changed (record {
      service_name = "db";
      previous_state = "HEALTHY";
      new_state = "DEGRADED";
      snapshot = none;
    })
    ∷ polled a_poll
    ∷ []

rings_lem_example :
    let s = run new_state_store events in
    (length (metrics_for s "db") ≤ max_points)
    × (get_last? (metrics_for (apply s (polled a_poll)) "db") ≡ some (point a_poll))
rings_lem_example = rings_lem events a_poll "db"
