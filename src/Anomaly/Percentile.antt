-- ===== src/Anomaly/Percentile.antt =====
-- What the baseline of apps/engine/internal/anomaly/latency.go is among the last 1000 samples.
use infrawatch.Prelude.{
  ◌≡◌, refl, sym, ap, ◌∙◌, ℕ, suc, ◌*◌, ◌-◌, ◌<◌, ◌≤◌, Bool, true, List, [], ◌∷◌, ◌++◌, leb, ltb,
  arith, length, push_bounded, length-append, length-drop,
}
use infrawatch.Prelude.Ranks.{count, sort, nth, count-sort, length-sort, sort-IsSorted, nth-rank}
use infrawatch.Anomaly.{max_samples, new_latency_series, valid, p95_index, percentile, p95}
use infrawatch.Anomaly.Ring.{
  add_all, push_all, add_all-window, add_all-IsRing, new_latency_series-IsRing, count-valid,
}

-- At least 95 of 100 elements are at most v, and fewer than 95 of 100 are less.
abbrev pub IsPercentile95 : ℕ → List ℕ → Type 0
IsPercentile95 v xs =
    (95 * length xs ≤ 100 * count (λ y. leb y v) xs)
    × (100 * count (λ y. ltb y v) xs < 95 * length xs)

-- The nearest-rank index is right for any number of samples.
percentile-rank : (x : ℕ) (xs : List ℕ) → IsPercentile95 (percentile (x ∷ xs)) (x ∷ xs)
unfolding percentile
percentile-rank x xs =
    let i = p95_index (length (x ∷ xs)) in
    let within : i < length (sort (x ∷ xs)) = omega (arith, length-sort (x ∷ xs)) in
    let (low, high) = nth-rank (sort (x ∷ xs)) i (sort-IsSorted (x ∷ xs)) within in
    let v = nth i (sort (x ∷ xs)) in
    (
      omega (arith, low, count-sort (λ y. leb y v) (x ∷ xs)),
      omega (arith, high, count-sort (λ y. ltb y v) (x ∷ xs)),
    )

count-length : (xs : List ℕ) → count (λ _. true) xs ≡ length xs
count-length [] = refl
count-length (x ∷ xs) = ap suc (count-length xs)

percentile-IsPercentile95 : (xs : List ℕ) → 0 < length xs → IsPercentile95 (percentile xs) xs
percentile-IsPercentile95 [] h = absurd (omega (arith, h))
percentile-IsPercentile95 (x ∷ xs) h = percentile-rank x xs

kept : (recent : List ℕ) (x : ℕ) → 0 < length (push_bounded max_samples recent x)
unfolding push_bounded
kept recent x = omega (
  arith,
  length-append recent (x ∷ []),
  length-drop (length (recent ++ x ∷ []) - max_samples) (recent ++ x ∷ []),
)

push_all-length : (recent xs : List ℕ) → 0 < length recent → 0 < length (push_all recent xs)
push_all-length recent [] h = h
push_all-length recent (x ∷ xs) h =
    push_all-length (push_bounded max_samples recent x) xs (kept recent x)

-- After any samples the baseline is the 95th percentile of the last 1000 of them (or of all, if there are fewer), by the nearest-rank definition: at least 95
-- of 100 are no greater, and fewer than 95 of 100 are less.
pub p95-IsPercentile95 :
    (x : ℕ) (xs : List ℕ)
    → IsPercentile95 (p95 (add_all new_latency_series (x ∷ xs))) (push_all [] (x ∷ xs))
unfolding p95 new_latency_series
p95-IsPercentile95 x xs =
    let ls = add_all new_latency_series (x ∷ xs) in
    let ring = add_all-IsRing new_latency_series (x ∷ xs) new_latency_series-IsRing in
    let seen = add_all-window new_latency_series (x ∷ xs) new_latency_series-IsRing in
    let recent = push_all [] (x ∷ xs) in
    let same = λ (p : ℕ → Bool). count-valid p ls ring ∙ ap (count p) seen in
    let sized : length (valid ls) ≡ length recent =
      sym (count-length (valid ls)) ∙ same (λ _. true) ∙ count-length recent in
    let some_seen : 0 < length recent =
      push_all-length (push_bounded max_samples [] x) xs (kept [] x) in
    let v = percentile (valid ls) in
    let (low, high) = percentile-IsPercentile95 (valid ls) (omega (arith, sized, some_seen)) in
    (
      omega (arith, low, sized, same (λ y. leb y v)),
      omega (arith, high, sized, same (λ y. ltb y v)),
    )
