-- ===== src/Health/Fsm/Tests.antt =====
-- The state machine on concrete histories, and its theorems applied to them
-- (apps/engine/internal/health/state.go).
use infrawatch.Prelude.{◌≡◌, refl, Bool, true, false, List, [], ◌∷◌, map, push_bounded, ◌↔◌}
use infrawatch.Health.Fsm.{
  healthy, degraded, unhealthy, dead, Transition, new_service_state, transition, count_check,
  enter_state, compute_next_state,
}
use infrawatch.Health.Fsm.Invariant.{IsValid, transition-IsValid}
use infrawatch.Health.Fsm.Streaks.{
  Poll, after, LastWere, after-IsValid, dead_iff, healthy_after_passes,
}

abbrev poll : Bool → Poll
poll ok = record { ok = ok; response_ms = 20; error = "timeout"; at = 7 }

abbrev outage : List Poll
outage = map poll (false ∷ false ∷ false ∷ false ∷ false ∷ true ∷ [])

abbrev repaired : List Poll
repaired = map poll (true ∷ true ∷ true ∷ false ∷ false ∷ false ∷ true ∷ [])

outage_dies : (after "db" outage).current_state ≡ dead
unfolding after new_service_state transition count_check enter_state compute_next_state
outage_dies = refl

outage_path :
    map (λ (t : Transition). t.to) (after "db" outage).transitions
    ≡ healthy ∷ degraded ∷ unhealthy ∷ dead ∷ []
unfolding after new_service_state transition count_check enter_state compute_next_state push_bounded
outage_path = refl

transition-IsValid_example : IsValid (transition (after "db" outage) true 20 "" 8).0
transition-IsValid_example =
    transition-IsValid (after "db" outage) true 20 "" 8 (after-IsValid "db" outage)

dead_iff_example : ((after "db" outage).current_state ≡ dead) ↔ LastWere false 5 outage
dead_iff_example = dead_iff "db" outage

healthy_after_passes_example : (after "db" repaired).current_state ≡ healthy
healthy_after_passes_example = healthy_after_passes "db" repaired (refl, (refl, (refl, tt)))
