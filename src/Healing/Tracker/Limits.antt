-- ===== src/Healing/Tracker/Limits.antt =====
-- What the attempt tracker promises for one service
-- (apps/engine/internal/healing/healer.go).
use infrawatch.Prelude.{
  ℕ, suc, ◌≡◌, refl, inl, inr, String, Bool, true, false, Option, none, some, if◌then◌else◌,
  Bool-cases,
}
use infrawatch.Prelude.Int.{ℤ, pos, leb_ℤ, ltb_ℤ}
use infrawatch.Prelude.Map.{lookup, lookup-insert_self, lookup-delete_self}
use infrawatch.Prelude.Time.{Instant, since}
use infrawatch.Healing.Tracker.{
  AttemptTracker, count_of, forget, decay_from, start_window, count_attempt, can_attempt,
}

-- One service's part of the tracker: the attempts of the running window and the window's start.
abbrev pub Window : Type 0
Window = Option (ℕ × Instant)

-- The tracker holds just that of the service.
abbrev pub Shows : AttemptTracker → String → Window → Type 0
Shows t name none = (lookup name t.counts ≡ none) × (lookup name t.reset_at ≡ none)
Shows t name (some (n, start)) =
    (lookup name t.counts ≡ some n) × (lookup name t.reset_at ≡ some start)

-- The rule for one service: an attempt opens a window or counts in the running one; it is refused
-- when as many as `max` are counted.
unfoldable pub attempt_in : ℤ → ℤ → Instant → Window → Window × Bool
attempt_in window max now none = if leb_ℤ max (pos 0) then (none, false) else (some (1, now), true)
attempt_in window max now (some (n, start)) =
    if ltb_ℤ window (since now start)
    then (if leb_ℤ max (pos 0) then (none, false) else (some (1, now), true))
    else (if leb_ℤ max (pos n) then (some (n, start), false) else (some (suc n, start), true))

-- What the call answers for a tracker that has decayed, and the rule's answer to it.
abbrev settled : AttemptTracker → String → ℤ → Instant → AttemptTracker × Bool
settled d name max now =
    if leb_ℤ max (pos (count_of d name)) then (d, false) else (count_attempt d name now, true)

abbrev settled_in : ℤ → Instant → Window → Window × Bool
settled_in max now none = if leb_ℤ max (pos 0) then (none, false) else (some (1, now), true)
settled_in max now (some (n, start)) =
    if leb_ℤ max (pos n) then (some (n, start), false) else (some (suc n, start), true)

-- The tracker and the rule agree: on the answer, on what is then held, and on the window.
abbrev pub Agrees : AttemptTracker → String → AttemptTracker × Bool → Window × Bool → Type 0
Agrees t name (t', ok) (w, ok') = Shows t' name w × (ok ≡ ok') × (t'.window ≡ t.window)

settled-Agrees :
    (t d : AttemptTracker) (name : String) (max : ℤ) (now : Instant) (w : Window)
    → Shows d name w
    → d.window ≡ t.window
    → Agrees t name (settled d name max now) (settled_in max now w)
unfolding count_attempt
settled-Agrees t d name max now none s e =
    rw (s.0, s.1)
      (elim (Bool-cases (leb_ℤ max (pos 0))) [
        | inl full ↦ rw full (s, refl, e)
        | inr free ↦
            rw (free, start_window)
              (
                (lookup-insert_self name 1 d.counts, lookup-insert_self name now d.reset_at),
                refl,
                e,
              )
      ])
settled-Agrees t d name max now (some (n, start)) s e =
    rw (s.0, s.1)
      (elim (Bool-cases (leb_ℤ max (pos n))) [
        | inl full ↦ rw full (s, refl, e)
        | inr free ↦
            rw (free, start_window) ((lookup-insert_self name (suc n) d.counts, s.1), refl, e)
      ])

-- The tracker's answer to an attempt, and what it holds of the service afterwards, follow the rule.
pub can_attempt-Agrees :
    (t : AttemptTracker) (name : String) (max : ℤ) (now : Instant) (w : Window)
    → Shows t name w
    → Agrees t name (can_attempt t name max now) (attempt_in t.window max now w)
unfolding can_attempt attempt_in
can_attempt-Agrees t name max now none s =
    rw (s.1, decay_from) (settled-Agrees t t name max now none s refl)
can_attempt-Agrees t name max now (some (n, start)) s =
    rw (s.1, decay_from)
      (elim (Bool-cases (ltb_ℤ t.window (since now start))) [
        | inl over ↦ rw over (
            settled-Agrees t (forget t name) name max now none
              (lookup-delete_self name t.counts, lookup-delete_self name t.reset_at) refl)
        | inr runs ↦ rw runs (settled-Agrees t t name max now (some (n, start)) s refl)
      ])
