-- ===== src/Anomaly/Spaced.antt =====
-- The rate limit of anomalies: apps/engine/internal/anomaly/latency.go.
use infrawatch.Prelude.{
  ◌≡◌, refl, sym, ap, subst, ◌∙◌, ◌⊎◌, inl, inr, ℕ, ◌+◌, ◌*◌, ◌≤◌, ◌==◌, ◌||◌, String, List, [],
  ◌∷◌, Option, none, some, get_or, str_eq, eq_iff, arith, Bool-cases, Option-cases, if◌then◌else◌,
}
use infrawatch.Prelude.Int.{pos, ltb_ℤ}
use infrawatch.Prelude.Map.{lookup, insert, lookup-insert}
use infrawatch.Prelude.Time.{Instant, since, minutes}
use infrawatch.Config.{AnomalyConfig}
use infrawatch.Anomaly.{
  LatencyDetector, new_latency_detector, new_latency_series, Anomaly, add, p95, series_key, scaled,
  judge, observe,
}

-- One response time: the service, its milliseconds, the hour and the time.
pub record Sample : Type 0 where
  pub service_name : String
  pub ms : ℕ
  pub hour : ℕ
  pub at : Instant

-- Of any samples, the times of the anomalies of one service.
abbrev pub note : String → Sample → Option Anomaly → List Instant → List Instant
note name s none ts = ts
note name s (some a) ts = if str_eq s.service_name name then s.at ∷ ts else ts

unfoldable pub alert_times : String → LatencyDetector → List Sample → List Instant
alert_times name d [] = []
alert_times name d (s ∷ samples) =
    let (d', a) = observe d s.service_name s.ms s.hour s.at in
    note name s a (alert_times name d' samples)

-- Each time is at least five minutes after the one before it.
abbrev pub IsSpaced : Option Instant → List Instant → Type 0
IsSpaced none [] = Unit
IsSpaced (some t) [] = Unit
IsSpaced none (u ∷ us) = IsSpaced (some u) us
IsSpaced (some t) (u ∷ us) = (t + minutes 5 ≤ u) × IsSpaced (some u) us

-- What one sample does to the last alert of a service.
judge-last :
    (name : String) (d : LatencyDetector) (service : String) (ms baseline : ℕ) (now : Instant)
    → (((judge d service ms baseline now).1 ≡ none)
        × (lookup name (judge d service ms baseline now).0.last_alerts ≡ lookup name d.last_alerts))
      ⊎ ((a : Anomaly) × ((judge d service ms baseline now).1 ≡ some a)
          × ((lookup service d.last_alerts ≡ none)
              ⊎ ((t : Instant) × (lookup service d.last_alerts ≡ some t) × (t + minutes 5 ≤ now)))
          × (lookup name (judge d service ms baseline now).0.last_alerts
              ≡ (if str_eq service name then some now else lookup name d.last_alerts)))
unfolding judge
judge-last name d service ms baseline now =
    elim (Bool-cases
      (baseline == 0 || ltb_ℤ (pos (ms * 1000)) (scaled baseline d.cfg.latency_multiplier))) [
        | inl e ↦ rw e (inl (refl, refl))
        | inr e ↦ rw e (elim (Option-cases (lookup service d.last_alerts)) [
          | inl n ↦ rw n (inr (_, refl, inl refl, lookup-insert name service now d.last_alerts))
          | inr (t, j) ↦ rw j (elim (Bool-cases (ltb_ℤ (since now t) (pos (minutes 5)))) [
            | inl r ↦ rw r (inl (refl, refl))
            | inr r ↦ rw r (
                inr (
                  _,
                  refl,
                  inr (t, refl, ground (arith, r)),
                  lookup-insert name service now d.last_alerts,
                ))
          ])
        ])
      ]

-- The times of a longer history, from what the first sample does.
note-IsSpaced :
    (name : String) (s : Sample) (a : Option Anomaly) (before after : Option Instant)
    (own : Option Instant) (ts : List Instant)
    → ((a ≡ none) × (after ≡ before))
      ⊎ ((x : Anomaly) × (a ≡ some x)
          × ((own ≡ none) ⊎ ((t : Instant) × (own ≡ some t) × (t + minutes 5 ≤ s.at)))
          × (after ≡ (if str_eq s.service_name name then some s.at else before)))
    → (s.service_name ≡ name → own ≡ before)
    → IsSpaced after ts
    → IsSpaced before (note name s a ts)
note-IsSpaced name s a before after own ts (inl (n, k)) o h = rw n (subst (λ u. IsSpaced u ts) k h)
note-IsSpaced name s a before after own ts (inr (x, e, l, k)) o h =
    elim (Bool-cases (str_eq s.service_name name)) [
      | inl q ↦
          rw (e, q)
            (let here = subst (λ b. after ≡ (if b then some s.at else before)) q k in
              let rest = subst (λ u. IsSpaced u ts) here h in
              let same = o ((eq_iff s.service_name name).0 q) in
              elim l [
                | inl none_yet ↦ subst (λ u. IsSpaced u (s.at ∷ ts)) (sym none_yet ∙ same) rest
                | inr (t, at_t, later) ↦
                    subst (λ u. IsSpaced u (s.at ∷ ts)) (sym at_t ∙ same) (later, rest)
              ])
      | inr q ↦
          rw (e, q)
            (subst (λ u. IsSpaced u ts) (subst (λ b. after ≡ (if b then some s.at else before)) q k)
              h)
    ]

IsSpaced-empty : (o : Option Instant) → IsSpaced o []
IsSpaced-empty none = tt
IsSpaced-empty (some t) = tt

alert_times-after :
    (name : String) (d : LatencyDetector) (samples : List Sample)
    → IsSpaced (lookup name d.last_alerts) (alert_times name d samples)
unfolding alert_times observe
alert_times-after name d [] = IsSpaced-empty (lookup name d.last_alerts)
alert_times-after name d (s ∷ samples) =
    let key = series_key s.service_name s.hour in
    let series = add (get_or (lookup key d.series) new_latency_series) s.ms in
    let d1 = record d { series = insert key series d.series } in
    note-IsSpaced name s _ (lookup name d.last_alerts) _ (lookup s.service_name d.last_alerts) _
      (judge-last name d1 s.service_name s.ms (p95 series) s.at) (ap (λ n. lookup n d.last_alerts))
      (alert_times-after name (judge d1 s.service_name s.ms (p95 series) s.at).0 samples)

-- Whatever response times a new detector sees, of any services and at any times, two anomalies of
-- one service are at least five minutes apart.
pub alert_times-IsSpaced :
    (cfg : AnomalyConfig) (name : String) (samples : List Sample)
    → IsSpaced none (alert_times name (new_latency_detector cfg) samples)
unfolding new_latency_detector lookup
alert_times-IsSpaced cfg name samples = alert_times-after name (new_latency_detector cfg) samples
