-- ===== src/Api/Metrics/Tests.antt =====
-- Metric points for the theorem on the summaries of apps/api/handlers/metrics.go.
use infrawatch.Prelude.{◌≡◌, refl, String, true, false, List, [], ◌∷◌, some, ◌⊎◌, inl}
use infrawatch.Prelude.Int.{ℤ}
use infrawatch.Prelude.Ranks.{sort, nth}
use infrawatch.Prelude.Time.{minutes}
use infrawatch.Api.StateStore.{new_state_store}
use infrawatch.Api.Metrics.{DbMetricPoint, positive, compute_p95, get_metrics, answer_query}

abbrev query : String → ℤ → List DbMetricPoint ⊎ String
query name cutoff = inl (
    record { time = minutes 61; is_healthy = true; latency_ms = 30 }
    ∷ record { time = minutes 62; is_healthy = false; latency_ms = 0 }
    ∷ record { time = minutes 63; is_healthy = true; latency_ms = 20 }
    ∷ [])

three_points : (get_metrics (some query) new_state_store "db" "1h" (minutes 70)).p95_ms ≡ 30
unfolding get_metrics answer_query positive compute_p95 sort nth
three_points = refl
