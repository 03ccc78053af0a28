-- ===== src/Anomaly.antt =====
-- apps/engine/internal/anomaly: the latency detector. A response time is a number of milliseconds,
-- and the multiplier is held in thousandths. The hour of the local clock is an argument.
use infrawatch.Prelude.{
  ℕ, zero, suc, ◌+◌, ◌-◌, ◌*◌, ◌/◌, ◌%◌, String, Bool, true, false, ◌&&◌, ◌||◌, List, [], ◌∷◌, ◌++◌,
  Option, none, some, ◌==◌, ltb, length, get_or, if◌then◌else◌,
}
use Prim.Native.String.{◌++◌ as ◌+++◌}
use infrawatch.Prelude.Decimal.{decimal}
use infrawatch.Prelude.Int.{ℤ, pos, negsuc, ltb_ℤ}
use infrawatch.Prelude.Map.{Map, lookup, insert}
use infrawatch.Prelude.Ranks.{sort, nth}
use infrawatch.Prelude.Time.{Instant, since, minutes}
use infrawatch.Config.{AnomalyConfig}
pub mod Slots
pub mod Ring
pub mod Percentile
pub mod Spaced
pub mod Tests

abbrev pub max_samples : ℕ
max_samples = 1000

abbrev pub replicate : ℕ → ℕ → List ℕ
replicate zero x = []
replicate (suc n) x = x ∷ replicate n x

abbrev pub set_nth : ℕ → ℕ → List ℕ → List ℕ
set_nth i x [] = []
set_nth zero x (y ∷ ys) = x ∷ ys
set_nth (suc i) x (y ∷ ys) = y ∷ set_nth i x ys

abbrev pub take : ℕ → List ℕ → List ℕ
take zero xs = []
take (suc n) [] = []
take (suc n) (x ∷ xs) = x ∷ take n xs

pub record LatencySeries : Type 0 where
  pub samples : List ℕ
  pub cursor : ℕ
  pub full : Bool

unfoldable pub new_latency_series : LatencySeries
new_latency_series = record { samples = replicate max_samples 0; cursor = 0; full = false }

unfoldable pub add : LatencySeries → ℕ → LatencySeries
add ls ms = record {
  samples = set_nth ls.cursor ms ls.samples;
  cursor = (ls.cursor + 1) % max_samples;
  full = ls.full || (ls.cursor + 1) % max_samples == 0;
}

-- The samples that `p95` copies.
unfoldable pub valid : LatencySeries → List ℕ
valid ls = take (if ls.full then max_samples else ls.cursor) ls.samples

-- The index of the percentile among n sorted samples. `math.Ceil(0.95 * n)` in floating point is this
-- number for every n up to 20000.
abbrev pub p95_index : ℕ → ℕ
p95_index n = (95 * n + 99) / 100 - 1

unfoldable pub percentile : List ℕ → ℕ
percentile [] = 0
percentile (x ∷ xs) = nth (p95_index (length (x ∷ xs))) (sort (x ∷ xs))

unfoldable pub p95 : LatencySeries → ℕ
p95 ls = percentile (valid ls)

-- `%s:%02d`.
unfoldable pub series_key : String → ℕ → String
series_key name hour = name +++ ":" +++ (if ltb hour 10 then "0" +++ decimal hour else decimal hour)

pub record Anomaly : Type 0 where
  pub service_name : String
  pub value : ℕ
  pub baseline : ℕ
  pub timestamp : Instant

pub record LatencyDetector : Type 0 where
  pub cfg : AnomalyConfig
  pub series : Map LatencySeries
  pub last_alerts : Map Instant

unfoldable pub new_latency_detector : AnomalyConfig → LatencyDetector
new_latency_detector cfg = record { cfg = cfg; series = []; last_alerts = [] }

-- A baseline times the multiplier, in thousandths.
abbrev pub scaled : ℕ → ℤ → ℤ
scaled zero m = pos 0
scaled (suc b) (pos m) = pos (suc b * m)
scaled (suc b) (negsuc m) = negsuc (suc b * suc m - 1)

is_recent : Option Instant → Instant → Bool
is_recent none now = false
is_recent (some t) now = ltb_ℤ (since now t) (pos (minutes 5))

-- What follows once the sample is in its series.
unfoldable pub judge : LatencyDetector → String → ℕ → ℕ → Instant → LatencyDetector × Option Anomaly
unfolding is_recent
judge d name ms baseline now =
    if baseline == 0 || ltb_ℤ (pos (ms * 1000)) (scaled baseline d.cfg.latency_multiplier)
    then (d, none)
    else (if is_recent (lookup name d.last_alerts) now then (d, none) else (
      record d { last_alerts = insert name now d.last_alerts },
      some (record { service_name = name; value = ms; baseline = baseline; timestamp = now }),
    ))

-- `Record`.
unfoldable pub observe :
    LatencyDetector → String → ℕ → ℕ → Instant → LatencyDetector × Option Anomaly
observe d name ms hour now =
    let key = series_key name hour in
    let s = add (get_or (lookup key d.series) new_latency_series) ms in
    judge (record d { series = insert key s d.series }) name ms (p95 s) now

baseline_found : Option LatencySeries → ℕ
baseline_found none = 0
baseline_found (some s) = p95 s

unfoldable pub current_baseline : LatencyDetector → String → ℕ → ℕ
unfolding baseline_found
current_baseline d name hour = baseline_found (lookup (series_key name hour) d.series)

-- The detector with its channel, which holds at most 256 anomalies.
pub record Detector : Type 0 where
  pub latency : LatencyDetector
  pub anomaly_ch : List Anomaly

emit : List Anomaly → Option Anomaly → List Anomaly
emit ch none = ch
emit ch (some a) = if ltb (length ch) 256 then ch ++ a ∷ [] else ch

unfoldable pub record_latency : Detector → String → ℕ → ℕ → Instant → Detector
unfolding emit
record_latency d name ms hour now =
    let (latency, a) = observe d.latency name ms hour now in
    record { latency = latency; anomaly_ch = emit d.anomaly_ch a }
