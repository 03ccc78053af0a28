-- ===== src/Health/Fsm/Streaks.antt =====
-- A history of polls, newest first, and what its recent results say of the state that it leads to
-- (apps/engine/internal/health/state.go).
use infrawatch.Prelude.{
  ℕ, zero, suc, ◌≤◌, ◌≡◌, refl, ◌↔◌, ◌⊎◌, inl, inr, String, Bool, true, false, List, [], ◌∷◌, arith,
}
use infrawatch.Prelude.Time.{Instant}
use infrawatch.Health.Fsm.{
  State, healthy, unhealthy, dead, ServiceState, new_service_state, transition, count_check,
  enter_state,
}
use infrawatch.Health.Fsm.Invariant.{
  Allowed, IsValid, new_service_state-IsValid, transition-IsValid,
}

pub record Poll : Type 0 where
  pub ok : Bool
  pub response_ms : ℕ
  pub error : String
  pub at : Instant

-- The state of a new service after a history of polls.
unfoldable pub after : String → List Poll → ServiceState
after name [] = new_service_state name
after name (p ∷ ps) = (transition (after name ps) p.ok p.response_ms p.error p.at).0

-- The last `n` polls all had the result `b`.
abbrev pub LastWere : Bool → ℕ → List Poll → Type 0
LastWere b zero ps = Unit {0}
LastWere b (suc n) [] = ⊥
LastWere b (suc n) (p ∷ ps) = (p.ok ≡ b) × LastWere b n ps

-- Whatever the polls were, the service's state is valid.
pub after-IsValid : (name : String) (ps : List Poll) → IsValid (after name ps)
unfolding after
after-IsValid name [] = new_service_state-IsValid name
after-IsValid name (p ∷ ps) =
    transition-IsValid (after name ps) p.ok p.response_ms p.error p.at (after-IsValid name ps)

transition-fails :
    (s : ServiceState) (ok : Bool) (ms : ℕ) (msg : String) (now : Instant)
    → ((ok ≡ false)
        × ((transition s ok ms msg now).0.consecutive_fails ≡ suc s.consecutive_fails)
        × ((transition s ok ms msg now).0.consecutive_ok ≡ 0))
      ⊎ ((ok ≡ true)
          × ((transition s ok ms msg now).0.consecutive_fails ≡ 0)
          × ((transition s ok ms msg now).0.consecutive_ok ≡ suc s.consecutive_ok))
unfolding transition count_check enter_state
transition-fails s true ms msg now = ground arith
transition-fails s false ms msg now = ground arith

-- The two counters are the lengths of the streaks of results that end the history.
fails-LastWere :
    (name : String) (n : ℕ) (ps : List Poll)
    → (n ≤ (after name ps).consecutive_fails) ↔ LastWere false n ps
unfolding after new_service_state
fails-LastWere name zero ps = (λ _. tt, λ _. omega arith)
fails-LastWere name (suc n) [] = (λ h. omega arith, λ h. absurd h)
fails-LastWere name (suc n) (p ∷ ps) = ground (
  arith,
  transition-fails (after name ps) p.ok p.response_ms p.error p.at,
  fails-LastWere name n ps,
)

ok-LastWere :
    (name : String) (n : ℕ) (ps : List Poll)
    → (n ≤ (after name ps).consecutive_ok) ↔ LastWere true n ps
unfolding after new_service_state
ok-LastWere name zero ps = (λ _. tt, λ _. omega arith)
ok-LastWere name (suc n) [] = (λ h. omega arith, λ h. absurd h)
ok-LastWere name (suc n) (p ∷ ps) =
    ground (
      arith,
      transition-fails (after name ps) p.ok p.response_ms p.error p.at,
      ok-LastWere name n ps,
    )

dead_of_Allowed : (c : State) (fails ok : ℕ) → Allowed c fails ok → (c ≡ dead) ↔ (5 ≤ fails)
dead_of_Allowed healthy fails ok a = ground arith
dead_of_Allowed _ fails ok a = ground arith

healthy_of_Allowed : (c : State) (fails ok : ℕ) → Allowed c fails ok → 3 ≤ ok → c ≡ healthy
healthy_of_Allowed healthy fails ok a h = refl
healthy_of_Allowed _ fails ok a h = absurd (omega arith)

bad_of_Allowed :
    (c : State) (fails ok : ℕ) → Allowed c fails ok → 3 ≤ fails → (c ≡ unhealthy) ⊎ (c ≡ dead)
bad_of_Allowed healthy fails ok a h = absurd (omega arith)
bad_of_Allowed unhealthy fails ok a h = inl refl
bad_of_Allowed dead fails ok a h = inr refl
bad_of_Allowed _ fails ok a h = absurd (omega arith)

-- A service is DEAD after a history of polls exactly when the last five of them failed.
pub dead_iff :
    (name : String) (ps : List Poll) → ((after name ps).current_state ≡ dead) ↔ LastWere false 5 ps
dead_iff name ps =
    let (f, g) =
      dead_of_Allowed _ _ (after name ps).consecutive_ok (after-IsValid name ps).allowed in
    let (h, k) = fails-LastWere name 5 ps in (λ d. h (f d), λ l. g (k l))

-- After three passing polls in a row a service is HEALTHY, whatever came before.
pub healthy_after_passes :
    (name : String) (ps : List Poll) → LastWere true 3 ps → (after name ps).current_state ≡ healthy
healthy_after_passes name ps l =
    healthy_of_Allowed _ (after name ps).consecutive_fails _ (after-IsValid name ps).allowed
      ((ok-LastWere name 3 ps).1 l)

-- After three failing polls in a row a service is UNHEALTHY or DEAD, whatever came before.
pub bad_after_fails :
    (name : String) (ps : List Poll)
    → LastWere false 3 ps
    → ((after name ps).current_state ≡ unhealthy) ⊎ ((after name ps).current_state ≡ dead)
bad_after_fails name ps l =
    bad_of_Allowed _ _ (after name ps).consecutive_ok (after-IsValid name ps).allowed
      ((fails-LastWere name 3 ps).1 l)
