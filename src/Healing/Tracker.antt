-- ===== src/Healing/Tracker.antt =====
-- `attemptTracker` of apps/engine/internal/healing/healer.go: how often a service may be restarted
-- within a window. The window opens with an attempt and is fixed, not sliding.
use infrawatch.Prelude.{
  ℕ, zero, suc, ◌+◌, ◌*◌, ◌≤◌, ◌<◌, ◌≡◌, refl, ◌≢◌, ◌⊎◌, inl, inr, String, Bool, true, false, List,
  [], ◌∷◌, Option, none, some, arith, if◌then◌else◌, get_or, Option-cases, Bool-cases, All, length,
  eq_refl, subst, sym,
}
use infrawatch.Prelude.Int.{ℤ, pos, leb_ℤ, ltb_ℤ, ◌≤ℤ◌}
use infrawatch.Prelude.Map.{
  Map, lookup, insert, delete, lookup-insert, lookup-delete, lookup-insert_self, lookup-delete_self,
  lookup-insert_ne, lookup-delete_ne,
}
use infrawatch.Prelude.Time.{Instant, since}
pub mod Limits
pub mod Series

pub record AttemptTracker : Type 0 where
  pub counts : Map ℕ
  pub reset_at : Map Instant
  pub window : ℤ

unfoldable pub new_attempt_tracker : ℤ → AttemptTracker
new_attempt_tracker window = record { counts = []; reset_at = []; window = window }

abbrev pub count_of : AttemptTracker → String → ℕ
count_of t name = get_or (lookup name t.counts) 0

abbrev forget : AttemptTracker → String → AttemptTracker
forget t name = record t { counts = delete name t.counts; reset_at = delete name t.reset_at }

decay_from : AttemptTracker → String → Instant → Option Instant → AttemptTracker
decay_from t name now none = t
decay_from t name now (some last) = if ltb_ℤ t.window (since now last) then forget t name else t

-- The counter starts anew once the window has passed.
unfoldable pub decay : AttemptTracker → String → Instant → AttemptTracker
unfolding decay_from
decay t name now = decay_from t name now (lookup name t.reset_at)

start_window : Map Instant → String → Instant → Option Instant → Map Instant
start_window m name now none = insert name now m
start_window m name now (some _) = m

count_attempt : AttemptTracker → String → Instant → AttemptTracker
unfolding start_window
count_attempt t name now = record t {
  counts = insert name (suc (count_of t name)) t.counts;
  reset_at = start_window t.reset_at name now (lookup name t.reset_at);
}

-- `canAttempt`.
unfoldable pub can_attempt : AttemptTracker → String → ℤ → Instant → AttemptTracker × Bool
unfolding decay count_attempt
can_attempt t name max now =
    let d = decay t name now in
    if leb_ℤ max (pos (count_of d name)) then (d, false) else (count_attempt d name now, true)
