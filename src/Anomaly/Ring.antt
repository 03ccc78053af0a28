-- ===== src/Anomaly/Ring.antt =====
-- The ring of apps/engine/internal/anomaly/latency.go against a sliding window of the last 1000 samples.
use infrawatch.Prelude.{
  ◌≡◌, refl, sym, ◌⊎◌, inl, inr, ap, ◌∙◌, ℕ, zero, suc, ◌+◌, ◌-◌, ◌<◌, ◌%◌, Bool, true, false, List,
  [], ◌∷◌, ◌++◌, ◌==◌, arith, length, Bool-cases, drop, push_bounded, length-append, length-drop,
  if◌then◌else◌,
}
use infrawatch.Prelude.Ranks.{count}
use infrawatch.Anomaly.{max_samples, set_nth, take, LatencySeries, new_latency_series, add, valid}
use infrawatch.Anomaly.Slots.{
  length-replicate, length-set_nth, length-take, take-length, take-set_nth, drop-set_nth,
  drop-length, append-nil, drop-append, append_assoc,
}

pub record IsRing (ls : LatencySeries) : Type 0 where
  pub sized : length ls.samples ≡ max_samples
  pub within : ls.cursor < max_samples

pub new_latency_series-IsRing : IsRing new_latency_series
unfolding new_latency_series
new_latency_series-IsRing = record { sized = length-replicate max_samples 0; within = omega arith }

add-IsRing : (ls : LatencySeries) (ms : ℕ) → IsRing ls → IsRing (add ls ms)
unfolding add
add-IsRing ls ms v = record {
  sized = length-set_nth ls.cursor ms ls.samples ∙ v.sized;
  within = omega arith;
}

-- The samples in the order in which they came.
abbrev pub window : LatencySeries → List ℕ
window ls =
    if ls.full
    then drop ls.cursor ls.samples ++ take ls.cursor ls.samples
    else take ls.cursor ls.samples

push-short : (n : ℕ) (xs : List ℕ) (x : ℕ) → length xs < n → push_bounded n xs x ≡ xs ++ x ∷ []
unfolding push_bounded
push-short n xs x h =
    let none_out : length (xs ++ x ∷ []) - n ≡ 0 = omega (arith, h, length-append xs (x ∷ [])) in
    ap (λ k. drop k (xs ++ x ∷ [])) none_out

push-full :
    (n : ℕ) (xs : List ℕ) (x : ℕ) → length xs ≡ n → push_bounded n xs x ≡ drop 1 (xs ++ x ∷ [])
unfolding push_bounded
push-full n xs x h =
    let one_out : length (xs ++ x ∷ []) - n ≡ 1 = omega (arith, h, length-append xs (x ∷ [])) in
    ap (λ k. drop k (xs ++ x ∷ [])) one_out

module _ (samples : List ℕ) (cursor ms : ℕ) (sized : length samples ≡ max_samples)
    (within : cursor < max_samples) where
  length-rotated : length (drop cursor samples ++ take cursor samples) ≡ max_samples
  length-rotated = omega (
    arith,
    sized,
    within,
    length-append (drop cursor samples) (take cursor samples),
    length-drop cursor samples,
    length-take cursor samples (omega (arith, sized, within)),
  )

  -- The oldest sample leaves a full ring.
  rotated-push :
      push_bounded max_samples (drop cursor samples ++ take cursor samples) ms
      ≡ drop (suc cursor) samples ++ (take cursor samples ++ ms ∷ [])
  rotated-push =
      push-full max_samples (drop cursor samples ++ take cursor samples) ms length-rotated
      ∙ ap (drop 1) (append_assoc (drop cursor samples) (take cursor samples) (ms ∷ []))
      ∙ drop-append cursor samples (take cursor samples ++ ms ∷ []) (omega (arith, sized, within))

  short-push : push_bounded max_samples (take cursor samples) ms ≡ take cursor samples ++ ms ∷ []
  short-push =
      push-short max_samples (take cursor samples) ms
        (omega (arith, within, sized, length-take cursor samples (omega (arith, sized, within))))

  abbrev Pushes : Bool → Type 0
  Pushes full =
      window (add (record { samples = samples; cursor = cursor; full = full }) ms)
      ≡ push_bounded max_samples
          (window (record { samples = samples; cursor = cursor; full = full })) ms

  taken : take (suc cursor) (set_nth cursor ms samples) ≡ take cursor samples ++ ms ∷ []
  taken = take-set_nth cursor ms samples (omega (arith, sized, within))

  mid : suc cursor < max_samples → (full : Bool) → Pushes full
  unfolding add
  mid h true =
      let next : (cursor + 1) % max_samples ≡ suc cursor = omega (arith, h) in
      rw (next, taken, drop-set_nth cursor ms samples) (sym rotated-push)
  mid h false =
      let next : (cursor + 1) % max_samples ≡ suc cursor = omega (arith, h) in
      let later : (suc cursor == 0) ≡ false = ground arith in
      rw (next, later, taken) (sym short-push)

  -- The whole ring, once the last slot is written.
  whole :
      suc cursor ≡ max_samples → set_nth cursor ms samples ++ [] ≡ take cursor samples ++ ms ∷ []
  whole h =
      append-nil (set_nth cursor ms samples)
      ∙ sym (
          take-length (suc cursor) (set_nth cursor ms samples)
            (length-set_nth cursor ms samples ∙ sized ∙ sym h))
      ∙ taken

  last : suc cursor ≡ max_samples → (full : Bool) → Pushes full
  unfolding add
  last h true =
      let next : (cursor + 1) % max_samples ≡ 0 = omega (arith, h) in
      rw next (
        whole h
        ∙ sym (
            rotated-push
            ∙ ap (λ d. d ++ (take cursor samples ++ ms ∷ []))
                (drop-length (suc cursor) samples (sized ∙ sym h))))
  last h false =
      let next : (cursor + 1) % max_samples ≡ 0 = omega (arith, h) in
      rw next (whole h ∙ sym short-push)

  cursor_cases : (suc cursor < max_samples) ⊎ (suc cursor ≡ max_samples)
  cursor_cases = ground (arith, within)

  pushes : (full : Bool) → Pushes full
  pushes full = elim cursor_cases [ inl h ↦ mid h full | inr h ↦ last h full ]

abbrev pub add_all : LatencySeries → List ℕ → LatencySeries
add_all ls [] = ls
add_all ls (x ∷ xs) = add_all (add ls x) xs

abbrev pub push_all : List ℕ → List ℕ → List ℕ
push_all recent [] = recent
push_all recent (x ∷ xs) = push_all (push_bounded max_samples recent x) xs

add-window :
    (ls : LatencySeries) (x : ℕ)
    → IsRing ls
    → window (add ls x) ≡ push_bounded max_samples (window ls) x
add-window ls x v = pushes ls.samples ls.cursor x v.sized v.within ls.full

pub add_all-window :
    (ls : LatencySeries) (xs : List ℕ)
    → IsRing ls
    → window (add_all ls xs) ≡ push_all (window ls) xs
add_all-window ls [] v = refl
add_all-window ls (x ∷ xs) v =
    add_all-window (add ls x) xs (add-IsRing ls x v) ∙ ap (λ w. push_all w xs) (add-window ls x v)

pub add_all-IsRing : (ls : LatencySeries) (xs : List ℕ) → IsRing ls → IsRing (add_all ls xs)
add_all-IsRing ls [] v = v
add_all-IsRing ls (x ∷ xs) v = add_all-IsRing (add ls x) xs (add-IsRing ls x v)

count-append : (p : ℕ → Bool) (xs ys : List ℕ) → count p (xs ++ ys) ≡ count p xs + count p ys
count-append p [] ys = omega arith
count-append p (x ∷ xs) ys = ground (arith, count-append p xs ys)

count-split :
    (p : ℕ → Bool) (n : ℕ) (xs : List ℕ) → count p (take n xs) + count p (drop n xs) ≡ count p xs
count-split p zero xs = omega arith
count-split p (suc n) [] = omega arith
count-split p (suc n) (x ∷ xs) = ground (arith, count-split p n xs)

-- `p95` reads the samples of the window, in another order.
pub count-valid :
    (p : ℕ → Bool) (ls : LatencySeries) → IsRing ls → count p (valid ls) ≡ count p (window ls)
unfolding valid
count-valid p ls v = elim (Bool-cases ls.full) [
  | inl e ↦ rw e (
      ap (count p) (take-length max_samples ls.samples v.sized)
      ∙ omega (
        arith,
        count-split p ls.cursor ls.samples,
        count-append p (drop ls.cursor ls.samples) (take ls.cursor ls.samples),
      ))
  | inr e ↦ rw e refl
]
