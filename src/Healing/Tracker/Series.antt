-- ===== src/Healing/Tracker/Series.antt =====
-- Series of attempts to heal one service (apps/engine/internal/healing/healer.go).
use infrawatch.Prelude.{
  ℕ, zero, suc, ◌+◌, ◌≤◌, ◌<◌, ◌≡◌, refl, ◌⊎◌, inl, inr, String, Bool, true, false, ◌&&◌, List, [],
  ◌∷◌, none, some, arith, All, subst,
}
use infrawatch.Prelude.Int.{ℤ, pos, ◌≤ℤ◌}
use infrawatch.Prelude.Time.{Instant, since}
use infrawatch.Healing.Tracker.{AttemptTracker, can_attempt}
use infrawatch.Healing.Tracker.Limits.{Window, Shows, attempt_in, Agrees, can_attempt-Agrees}

-- The answers to a series of attempts at the given times.
unfoldable pub answers : AttemptTracker → String → ℤ → List Instant → List Bool
answers t name max [] = []
answers t name max (now ∷ more) =
    let (t', ok) = can_attempt t name max now in let rest = answers t' name max more in ok ∷ rest

abbrev pub count_true : List Bool → ℕ
count_true [] = 0
count_true (true ∷ bs) = suc (count_true bs)
count_true (false ∷ bs) = count_true bs

-- No time of the list lies more than the window after `start`.
abbrev pub Within : ℤ → Instant → List Instant → Type 0
Within window start = All (λ now. since now start ≤ℤ window)

attempt_in_within :
    (window : ℤ) (max n : ℕ) (start now : Instant)
    → since now start ≤ℤ window
    → ((max ≤ n) × (attempt_in window (pos max) now (some (n, start)) ≡ (some (n, start), false)))
      ⊎ ((n < max)
          × (attempt_in window (pos max) now (some (n, start)) ≡ (some (suc n, start), true)))
unfolding attempt_in
attempt_in_within window max n start now h = ground arith

answers-Within :
    (t : AttemptTracker) (name : String) (max n : ℕ) (start : Instant) (more : List Instant)
    → Shows t name (some (n, start))
    → n ≤ max
    → Within t.window start more
    → count_true (answers t name (pos max) more) + n ≤ max
unfolding answers
answers-Within t name max n start [] s h all = omega arith
answers-Within t name max n start (now ∷ more) s h all =
    let r = can_attempt t name (pos max) now in
    let agrees = can_attempt-Agrees t name (pos max) now (some (n, start)) s in
    elim (attempt_in_within t.window max n start now all.0) [
      | inl (full, e) ↦
          let (s', refused, same) = subst (Agrees t name r) e agrees in
          let rest = answers-Within r.0 name max n start more s' h (rw same all.1) in
          rw refused rest
      | inr (free, e) ↦
          let (s', admitted, same) = subst (Agrees t name r) e agrees in
          let rest = answers-Within r.0 name max (suc n) start more s' free (rw same all.1) in
          rw admitted (omega (arith, rest))
    ]

answers_barred :
    (t : AttemptTracker) (name : String) (more : List Instant)
    → Shows t name none
    → count_true (answers t name (pos 0) more) ≡ 0
unfolding answers attempt_in
answers_barred t name [] s = refl
answers_barred t name (now ∷ more) s =
    let r = can_attempt t name (pos 0) now in
    let (s', refused, same) = can_attempt-Agrees t name (pos 0) now none s in
    rw refused (answers_barred r.0 name more s')

-- Of the attempts within one window at most `max` are admitted, however many there are: here the
-- first attempt, at `start`, opens the window, and no other comes more than the window after it.
pub attempts_bounded :
    (t : AttemptTracker) (name : String) (max : ℕ) (start : Instant) (more : List Instant)
    → Shows t name none
    → Within t.window start more
    → count_true (answers t name (pos max) (start ∷ more)) ≤ max
unfolding answers attempt_in
attempts_bounded t name zero start more s all =
    omega (arith, answers_barred t name (start ∷ more) s)
attempts_bounded t name (suc m) start more s all =
    let r = can_attempt t name (pos (suc m)) start in
    let e : attempt_in t.window (pos (suc m)) start none ≡ (some (1, start), true) = ground arith in
    let (s', admitted, same) =
      subst (Agrees t name r) e (can_attempt-Agrees t name (pos (suc m)) start none s) in
    let rest = answers-Within r.0 name (suc m) 1 start more s' (omega arith) (rw same all) in
    rw admitted (omega (arith, rest))

-- Successive attempts lie at least `gap` apart.
abbrev pub Spaced : ℕ → Instant → List Instant → Type 0
Spaced gap last [] = Unit {0}
Spaced gap last (now ∷ more) = (last + gap ≤ now) × Spaced gap now more

abbrev pub all_true : List Bool → Bool
all_true [] = true
all_true (b ∷ bs) = b && all_true bs

-- What is held of the service when the last attempt, at `last`, was admitted.
abbrev Sparse : ℕ → Instant → Window → Type 0
Sparse gap last none = ⊥
Sparse gap last (some (n, start)) = ((n ≡ 1) × (start ≡ last)) ⊎ ((n ≡ 2) × (start + gap ≤ last))

attempt_in-Sparse :
    (window max : ℤ) (gap : ℕ) (last now : Instant) (w : Window)
    → pos 2 ≤ℤ max
    → ¬ (pos (gap + gap) ≤ℤ window)
    → Sparse gap last w
    → last + gap ≤ now
    → ((attempt_in window max now w).1 ≡ true) × Sparse gap now (attempt_in window max now w).0
unfolding attempt_in
attempt_in-Sparse window max gap last now none m g s h = absurd s
attempt_in-Sparse window max gap last now (some (n, start)) m g s h = ground arith

Spaced-from :
    (t : AttemptTracker) (name : String) (max : ℤ) (gap : ℕ) (last : Instant) (w : Window)
    (more : List Instant)
    → pos 2 ≤ℤ max
    → ¬ (pos (gap + gap) ≤ℤ t.window)
    → Shows t name w
    → Sparse gap last w
    → Spaced gap last more
    → all_true (answers t name max more) ≡ true
unfolding answers
Spaced-from t name max gap last w [] m g s sp all = refl
Spaced-from t name max gap last w (now ∷ more) m g s sp all =
    let r = can_attempt t name max now in
    let (s', admitted, same) = can_attempt-Agrees t name max now w s in
    let (kept, sp') = attempt_in-Sparse t.window max gap last now w m g sp all.0 in
    rw (admitted, kept)
      (Spaced-from r.0 name max gap now (attempt_in t.window max now w).0 more m (rw same g) s' sp'
        all.1)

-- Attempts that lie far enough apart are all admitted, for every limit from 2 on and a service whose
-- window has not begun: a gap of more than half the window is enough.
pub Spaced-admitted :
    (t : AttemptTracker) (name : String) (max : ℤ) (gap : ℕ) (start : Instant) (more : List Instant)
    → pos 2 ≤ℤ max
    → ¬ (pos (gap + gap) ≤ℤ t.window)
    → Shows t name none
    → Spaced gap start more
    → all_true (answers t name max (start ∷ more)) ≡ true
unfolding answers attempt_in
Spaced-admitted t name max gap start more m g s all =
    let r = can_attempt t name max start in
    let e : attempt_in t.window max start none ≡ (some (1, start), true) = ground arith in
    let (s', admitted, same) =
      subst (Agrees t name r) e (can_attempt-Agrees t name max start none s) in
    rw admitted (
      Spaced-from r.0 name max gap start (some (1, start)) more m (rw same g) s' (inl (refl, refl))
        all)
