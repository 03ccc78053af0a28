-- ===== src/Api/Metrics.antt =====
-- apps/api/handlers/metrics.go: the summary of a service's metrics. A latency of the database is
-- held in a fixed fraction of a millisecond; an error rate is the exact fraction that the floating-point percentage rounds.
use infrawatch.Prelude.{
  ℕ, zero, suc, ◌+◌, ◌*◌, ◌/◌, ◌-◌, String, Bool, true, false, not, List, [], ◌∷◌, Option, none,
  some, ◌⊎◌, inl, inr, str_eq, ltb, leb, length, if◌then◌else◌,
}
use infrawatch.Prelude.Int.{ℤ, pos, ltb_ℤ, sub_ℕ}
use infrawatch.Prelude.Ranks.{sort, nth}
use infrawatch.Prelude.Time.{Instant, minutes}
use infrawatch.Anomaly.{p95_index}
use infrawatch.Api.StateStore.{MetricPoint, StateStore, metrics_for}
pub mod Summary
pub mod Tests

pub record DbMetricPoint : Type 0 where
  pub time : Instant
  pub is_healthy : Bool
  pub latency_ms : ℕ

abbrev pub hours : ℕ → ℕ
hours n = minutes (60 * n)

unfoldable pub range_cutoff : String → Instant → ℤ
range_cutoff r now =
    if str_eq r "6h"
    then sub_ℕ now (hours 6)
    else (if str_eq r "24h"
        then sub_ℕ now (hours 24)
        else (if str_eq r "7d" then sub_ℕ now (hours (7 * 24)) else sub_ℕ now (hours 1)))

-- The latencies above 0.
unfoldable pub positive : List ℕ → List ℕ
positive [] = []
positive (x ∷ xs) = let rest = positive xs in if ltb 0 x then x ∷ rest else rest

abbrev pub p50_index : ℕ → ℕ
p50_index n = if leb n (n / 2) then n - 1 else n / 2

unfoldable pub compute_p50 : List ℕ → ℕ
compute_p50 [] = 0
compute_p50 (x ∷ xs) = nth (p50_index (length (x ∷ xs))) (x ∷ xs)

unfoldable pub compute_p95 : List ℕ → ℕ
compute_p95 [] = 0
compute_p95 (x ∷ xs) = nth (p95_index (length (x ∷ xs))) (x ∷ xs)

abbrev pub percentiles : List ℕ → ℕ × ℕ
percentiles latencies =
    (compute_p50 (sort (positive latencies)), compute_p95 (sort (positive latencies)))

abbrev pub count_errors : List Bool → ℕ
count_errors [] = 0
count_errors (ok ∷ oks) = let rest = count_errors oks in if ok then rest else suc rest

-- The errors in percent of the points, as numerator and denominator.
unfoldable pub compute_error_rate : List Bool → ℕ × ℕ
compute_error_rate [] = (0, 1)
compute_error_rate (ok ∷ oks) = (count_errors (ok ∷ oks) * 100, length (ok ∷ oks))

abbrev pub latencies_of : List MetricPoint → List ℕ
latencies_of [] = []
latencies_of (pt ∷ pts) = pt.response_time_ms ∷ latencies_of pts

abbrev pub oks_of : List MetricPoint → List Bool
oks_of [] = []
oks_of (pt ∷ pts) = pt.ok ∷ oks_of pts

abbrev pub db_latencies : List DbMetricPoint → List ℕ
db_latencies [] = []
db_latencies (pt ∷ pts) = pt.latency_ms ∷ db_latencies pts

abbrev pub db_oks : List DbMetricPoint → List Bool
db_oks [] = []
db_oks (pt ∷ pts) = pt.is_healthy ∷ db_oks pts

-- The points after the cutoff.
unfoldable pub points_after : ℤ → List MetricPoint → List MetricPoint
points_after cutoff [] = []
points_after cutoff (pt ∷ pts) =
    let rest = points_after cutoff pts in
    if ltb_ℤ cutoff (pos pt.timestamp) then pt ∷ rest else rest

pub record MetricsAnswer : Type 0 where
  pub total : ℕ
  pub p50_ms : ℕ
  pub p95_ms : ℕ
  pub error_rate : ℕ × ℕ
  pub source : String
  pub points : List DbMetricPoint ⊎ List MetricPoint

abbrev summarise :
    ℕ → List ℕ → List Bool → String → List DbMetricPoint ⊎ List MetricPoint → MetricsAnswer
summarise total latencies oks source points =
    let (p50, p95) = percentiles latencies in
    record {
      total = total;
      p50_ms = p50;
      p95_ms = p95;
      error_rate = compute_error_rate oks;
      source = source;
      points = points;
    }

unfoldable pub from_memory : StateStore → String → ℤ → MetricsAnswer
from_memory store name cutoff =
    let filtered = points_after cutoff (metrics_for store name) in
    summarise (length filtered) (latencies_of filtered) (oks_of filtered) "in-memory" (inr filtered)

answer_query : StateStore → String → ℤ → List DbMetricPoint ⊎ String → MetricsAnswer
answer_query store name cutoff (inl pts) =
    summarise (length pts) (db_latencies pts) (db_oks pts) "timescaledb" (inl pts)
answer_query store name cutoff (inr e) = from_memory store name cutoff

-- `Get`: without a database, or when its query fails, the points in memory are used.
unfoldable pub get_metrics :
    Option (String → ℤ → List DbMetricPoint ⊎ String)
    → StateStore
    → String
    → String
    → Instant
    → MetricsAnswer
unfolding answer_query
get_metrics none store name range now = from_memory store name (range_cutoff range now)
get_metrics (some query) store name range now =
    answer_query store name (range_cutoff range now) (query name (range_cutoff range now))

-- `Baseline`: the 95th percentile and the number of samples.
baseline_of : List ℕ → ℕ × ℕ
baseline_of latencies = (compute_p95 (sort (positive latencies)), length (positive latencies))

answer_baseline : StateStore → String → ℤ → List DbMetricPoint ⊎ String → ℕ × ℕ
unfolding baseline_of
answer_baseline store name cutoff (inl pts) = baseline_of (db_latencies pts)
answer_baseline store name cutoff (inr e) =
    baseline_of (latencies_of (points_after cutoff (metrics_for store name)))

unfoldable pub baseline :
    Option (String → ℤ → List DbMetricPoint ⊎ String) → StateStore → String → Instant → ℕ × ℕ
unfolding answer_baseline baseline_of
baseline none store name now =
    baseline_of (latencies_of (points_after (sub_ℕ now (hours 1)) (metrics_for store name)))
baseline (some query) store name now =
    answer_baseline store name (sub_ℕ now (hours 1)) (query name (sub_ℕ now (hours 1)))
