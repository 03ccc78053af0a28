-- ===== src/Api/Metrics/Summary.antt =====
-- What the numbers in the answer of apps/api/handlers/metrics.go are.
use infrawatch.Prelude.{
  ◌≡◌, not, if◌then◌else◌, suc, ◌⊎◌, inl, inr, ℕ, ◌*◌, ◌<◌, ◌≤◌, Bool, List, [], ◌∷◌, leb, ltb,
  length,
}
use infrawatch.Prelude.Ranks.{count}
use infrawatch.Anomaly.Percentile.{IsPercentile95}
use infrawatch.Api.StateStore.{MetricPoint, StateStore}
use infrawatch.Api.Metrics.{positive, latencies_of, DbMetricPoint, db_latencies, MetricsAnswer}

-- More than half are at most v, and at most half are less.
abbrev pub IsMedian : ℕ → List ℕ → Type 0
IsMedian v xs =
    (length xs < 2 * count (λ y. leb y v) xs) × (2 * count (λ y. ltb y v) xs ≤ length xs)

-- The latencies of the points that an answer shows.
abbrev pub shown_latencies : List DbMetricPoint ⊎ List MetricPoint → List ℕ
shown_latencies (inl pts) = db_latencies pts
shown_latencies (inr pts) = latencies_of pts

-- How many elements pass a test.
abbrev pub count_in : {A : Type 0} → (A → Bool) → List A → ℕ
count_in test [] = 0
count_in test (x ∷ xs) = if test x then suc (count_in test xs) else count_in test xs

-- How many points an answer shows, and how many of them are of a failing check.
abbrev pub shown : List DbMetricPoint ⊎ List MetricPoint → ℕ
shown (inl pts) = length pts
shown (inr pts) = length pts

abbrev pub failing : List DbMetricPoint ⊎ List MetricPoint → ℕ
failing (inl pts) = count_in (λ (pt : DbMetricPoint). not pt.is_healthy) pts
failing (inr pts) = count_in (λ (pt : MetricPoint). not pt.ok) pts

-- The rate is 100 times the failing points over all points.
abbrev pub IsRate : ℕ × ℕ → List DbMetricPoint ⊎ List MetricPoint → Type 0
IsRate rate pts = (rate.0 ≡ 100 * failing pts) × (rate.1 ≡ shown pts)

abbrev pub IsRight : MetricsAnswer → Type 0
IsRight a =
    (a.total ≡ shown a.points)
    × IsMedian a.p50_ms (positive (shown_latencies a.points))
    × IsPercentile95 a.p95_ms (positive (shown_latencies a.points))
    × IsRate a.error_rate a.points
