-- ===== src/Circuit/Breaker/Protocol.antt =====
-- The life of a breaker over sequences of calls: when it trips, how long it blocks, and how it
-- closes again (apps/engine/internal/circuit/breaker.go).
use infrawatch.Prelude.{
  suc, ◌+◌, ◌<◌, ◌≡◌, refl, sym, subst, ◌↔◌, ◌⊎◌, true, false, List, [], ◌∷◌, map, arith, length,
  All,
}
use infrawatch.Prelude.Int.{pos, ◌≤ℤ◌}
use infrawatch.Prelude.Time.{Instant, since}
use infrawatch.Circuit.Breaker.{
  BreakerState, closed, opened, half_open, BreakerConfig, Breaker, is_open, record_success,
  record_failure,
}
use infrawatch.Circuit.Breaker.Invariant.{
  Call, gate, success, failure, resets, step, run, IsValid, step-IsValid,
}

-- The moves between the states. Only `reset` closes an open breaker at once.
pub data Edge : BreakerState → BreakerState → Type 0 where
  trip : Edge closed opened
  probe : Edge opened half_open
  reopen : Edge half_open opened
  close : Edge half_open closed

ruleset edges = (trip, probe, reopen, close)

abbrev pub IsReset : Call → Type 0
IsReset (resets now) = Unit {0}
IsReset _ = ⊥

-- A call other than `reset` leaves the state or follows an edge; `reset` closes from anywhere.
pub step-Edge :
    (b : Breaker) (c : Call)
    → ((step b c).state ≡ b.state)
      ⊎ Edge b.state (step b c).state
      ⊎ (IsReset c × ((step b c).state ≡ closed))
unfolding step
step-Edge b (gate now) = grind (arith, edges)
step-Edge b (success now) = grind (arith, edges)
step-Edge b (failure now) = grind (arith, edges)
step-Edge b (resets now) = grind (arith, edges)

-- `IsOpen` blocks a check exactly while the breaker is open and its timeout has not passed; it then
-- changes nothing. When it does not block, the breaker is not open any more.
pub is_open_lem :
    (b : Breaker) (now : Instant)
    → (((is_open b now).1 ≡ true)
        ↔ ((b.state ≡ opened) × ¬ (b.cfg.timeout ≤ℤ since now b.opened_at)))
      × ((is_open b now).1 ≡ true → (is_open b now).0 ≡ b)
      × ((is_open b now).1 ≡ false → ¬ ((is_open b now).0.state ≡ opened))
unfolding is_open
is_open_lem b now = ground arith

-- Fewer failures than are missing to the threshold leave a closed breaker closed.
failures_below :
    (b : Breaker) (ts : List Instant)
    → b.state ≡ closed
    → pos (suc (b.consecutive_fails + length ts)) ≤ℤ b.cfg.failure_threshold
    → (run b (map failure ts)).state ≡ closed
unfolding run
failures_below b [] c h = c
failures_below b (t ∷ ts) c h = failures_below (record_failure b t) ts (ground arith) (ground arith)

opened_stays :
    (b : Breaker) (ts : List Instant) → b.state ≡ opened → (run b (map failure ts)).state ≡ opened
unfolding run
opened_stays b [] o = o
opened_stays b (t ∷ ts) o = opened_stays (record_failure b t) ts (ground arith)

-- A run of failures, whatever their times, opens a closed breaker exactly when it brings the count
-- of consecutive failures to the threshold.
pub failures_trip :
    (cfg : BreakerConfig) (b : Breaker) (ts : List Instant)
    → IsValid cfg b
    → b.state ≡ closed
    → ((run b (map failure ts)).state ≡ opened)
      ↔ (cfg.failure_threshold ≤ℤ pos (b.consecutive_fails + length ts))
unfolding run
failures_trip cfg b [] v c = ground arith
failures_trip cfg b (t ∷ ts) v c = ground (
  arith,
  opened_stays (record_failure b t) ts,
  step-IsValid cfg b (failure t) (omega (arith, v.below_threshold c)) v,
  failures_trip cfg (record_failure b t) ts,
)

-- An open breaker blocks every check that is asked for before its timeout has passed since it
-- opened, and stays as it is.
pub gates_blocked :
    (b : Breaker) (ts : List Instant)
    → b.state ≡ opened
    → All (λ t. ¬ (b.cfg.timeout ≤ℤ since t b.opened_at)) ts
    → run b (map gate ts) ≡ b
unfolding run
gates_blocked b [] o early = refl
gates_blocked b (t ∷ ts) o early =
    let same : step b (gate t) ≡ b = ground arith in
    subst (λ c. run c (map gate ts) ≡ b) (sym same) (gates_blocked b ts o early.1)

successes_below :
    (b : Breaker) (ts : List Instant)
    → b.state ≡ half_open
    → pos (suc (b.consecutive_ok + length ts)) ≤ℤ b.cfg.success_threshold
    → (run b (map success ts)).state ≡ half_open
unfolding run
successes_below b [] o h = o
successes_below b (t ∷ ts) o h =
    successes_below (record_success b t) ts (ground arith) (ground arith)

closed_stays :
    (b : Breaker) (ts : List Instant) → b.state ≡ closed → (run b (map success ts)).state ≡ closed
unfolding run
closed_stays b [] o = o
closed_stays b (t ∷ ts) o = closed_stays (record_success b t) ts (ground arith)

successes_close :
    (b : Breaker) (ts : List Instant)
    → b.state ≡ half_open
    → b.cfg.success_threshold ≤ℤ pos (b.consecutive_ok + length ts)
    → 0 < length ts
    → (run b (map success ts)).state ≡ closed
unfolding run
successes_close b [] o h p = absurd (omega arith)
successes_close b (t ∷ []) o h p = ground arith
successes_close b (t ∷ u ∷ ts) o h p = ground (
  arith,
  closed_stays (record_success b t) (u ∷ ts),
  successes_close (record_success b t) (u ∷ ts),
)

is_open_late :
    (b : Breaker) (now : Instant)
    → b.state ≡ opened
    → b.cfg.timeout ≤ℤ since now b.opened_at
    → is_open b now ≡ (record b { state = half_open; last_transition = now }, false)
unfolding is_open
is_open_late b now o late = ground arith

-- Once the timeout of an open breaker has passed, the next check is let through, and the breaker is
-- closed by exactly as many passing checks as the success threshold asks for (at least one).
pub recovers :
    (cfg : BreakerConfig) (b : Breaker) (now : Instant) (ts : List Instant)
    → IsValid cfg b
    → b.state ≡ opened
    → cfg.timeout ≤ℤ since now b.opened_at
    → ((is_open b now).1 ≡ false)
      × (((run b (gate now ∷ map success ts)).state ≡ closed)
          ↔ ((0 < length ts) × (cfg.success_threshold ≤ℤ pos (length ts))))
unfolding run
recovers cfg b now [] v o late = ground arith
recovers cfg b now (t ∷ ts) v o late = ground (
  arith,
  is_open_late b now o (ground arith),
  successes_close (step b (gate now)) (t ∷ ts),
  successes_below (step b (gate now)) (t ∷ ts),
)

-- One failing check of a half-open breaker opens it for another whole timeout.
pub relapse :
    (b : Breaker) (now later : Instant)
    → b.state ≡ half_open
    → ¬ (b.cfg.timeout ≤ℤ since later now)
    → (is_open (record_failure b now) later).1 ≡ true
unfolding is_open record_failure
relapse b now later o early = ground arith
