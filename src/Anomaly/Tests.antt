-- ===== src/Anomaly/Tests.antt =====
-- Response times for the theorems on the latency detector (apps/engine/internal/anomaly).
use infrawatch.Prelude.{◌≡◌, refl, List, [], ◌∷◌, none}
use infrawatch.Prelude.Int.{pos}
use infrawatch.Prelude.Time.{minutes}
use infrawatch.Prelude.Ranks.{sort, nth}
use infrawatch.Anomaly.{new_latency_detector, new_latency_series, p95, percentile}
use infrawatch.Anomaly.Percentile.{IsPercentile95, p95-IsPercentile95}
use infrawatch.Anomaly.Ring.{add_all, push_all}
use infrawatch.Anomaly.Spaced.{Sample, IsSpaced, alert_times, alert_times-IsSpaced}

-- Of three samples the greatest is the 95th percentile.
of_three : percentile (20 ∷ 70 ∷ 30 ∷ []) ≡ 70
unfolding percentile sort nth
of_three = refl

abbrev samples : List Sample
samples =
    record { service_name = "db"; ms = 20; hour = 9; at = 0 }
    ∷ record { service_name = "db"; ms = 90; hour = 9; at = minutes 1 }
    ∷ record { service_name = "db"; ms = 95; hour = 9; at = minutes 7 }
    ∷ []

p95-IsPercentile95_example :
    IsPercentile95
      (p95 (add_all new_latency_series (20 ∷ 70 ∷ 30 ∷ [])))
      (push_all [] (20 ∷ 70 ∷ 30 ∷ []))
p95-IsPercentile95_example = p95-IsPercentile95 20 (70 ∷ 30 ∷ [])

alert_times-IsSpaced_example :
    IsSpaced none
      (alert_times "db" (new_latency_detector (record { latency_multiplier = pos 1_000 })) samples)
alert_times-IsSpaced_example =
    alert_times-IsSpaced (record { latency_multiplier = pos 1_000 }) "db" samples
