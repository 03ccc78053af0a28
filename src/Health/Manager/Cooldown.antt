-- ===== src/Health/Manager/Cooldown.antt =====
-- When `Record` starts a healing attempt (apps/engine/internal/health/state_manager.go).
use infrawatch.Prelude.{
  ◌≡◌, refl, String, Bool, true, not, ◌&&◌, [], ◌∷◌, ◌++◌, Option, none, some, str_eq,
  if◌then◌else◌, Option-cases, Bool-cases, inl, inr, arith,
}
use infrawatch.Prelude.Int.{ltb_ℤ}
use infrawatch.Prelude.Map.{lookup, lookup-insert}
use infrawatch.Prelude.Time.{Instant, since}
use infrawatch.Config.{ServiceConfig}
use infrawatch.Healing.Healer.{cooldown}
use infrawatch.Health.Checker.{CheckResult}
use infrawatch.Health.Fsm.{State, healthy, degraded, unhealthy, dead, recovering, unknown, state_eq}
use infrawatch.Health.Manager.{
  Outside, Engine, trigger_since, maybe_trigger_healing, record_metric, announce, follow_up,
  record_result,
}
use infrawatch.Health.Manager.Effect.{step_of}

-- No attempt was started for the service, or its last one is a cooldown ago.
abbrev is_due : Engine → Instant → Option Instant → Bool
is_due e now none = true
is_due e now (some last) = not (ltb_ℤ (since now last) (cooldown e.healer))

abbrev pub due : Engine → String → Instant → Bool
due e name now = is_due e now (lookup name e.healing_attempts)

trigger_lem :
    (e : Engine) (svc : ServiceConfig) (now : Instant) (name : String)
    → let e' = maybe_trigger_healing e svc now in
      (e'.pending ≡ (if due e svc.name now then e.pending ++ svc ∷ [] else e.pending))
      × (lookup name e'.healing_attempts ≡ (
          if due e svc.name now && str_eq svc.name name
          then some now
          else lookup name e.healing_attempts))
unfolding maybe_trigger_healing
trigger_lem e svc now name = elim (Option-cases (lookup svc.name e.healing_attempts)) [
  | inl h ↦ rw (h, trigger_since) (refl, lookup-insert name svc.name now e.healing_attempts)
  | inr (last, h) ↦
      rw (h, trigger_since) ground (arith, lookup-insert name svc.name now e.healing_attempts)
]

follow_up_lem :
    (e : Engine) (svc : ServiceConfig) (next : State) (now : Instant) (name : String)
    → let e' = follow_up e svc next now in
      (e'.pending
        ≡ (if state_eq next dead && due e svc.name now then e.pending ++ svc ∷ [] else e.pending))
      × (lookup name e'.healing_attempts ≡ (
          if state_eq next dead && due e svc.name now && str_eq svc.name name
          then some now
          else lookup name e.healing_attempts))
unfolding follow_up
follow_up_lem e svc healthy now name = (refl, refl)
follow_up_lem e svc degraded now name = (refl, refl)
follow_up_lem e svc unhealthy now name = (refl, refl)
follow_up_lem e svc dead now name = trigger_lem e svc now name
follow_up_lem e svc recovering now name = (refl, refl)
follow_up_lem e svc unknown now name = (refl, refl)

-- Whether the result of a poll starts a healing attempt.
abbrev pub triggers : Engine → ServiceConfig → CheckResult → Instant → Bool
triggers e svc result now =
    let (s, next, changed) = step_of e svc result now in
    changed && (state_eq next dead && due e svc.name now)

-- A healing attempt is started exactly when the service has just turned DEAD and none was started
-- for it within the cooldown before. The time of the attempt is then kept as the service's last one;
-- otherwise, and of other services, the time that was kept stays.
pub record_result-triggers :
    (out : Outside) (e : Engine) (svc : ServiceConfig) (result : CheckResult) (now : Instant)
    (name : String)
    → let e' = record_result out e svc result now in
      (e'.pending ≡ (if triggers e svc result now then e.pending ++ svc ∷ [] else e.pending))
      × (lookup name e'.healing_attempts ≡ (
          if triggers e svc result now && str_eq svc.name name
          then some now
          else lookup name e.healing_attempts))
unfolding record_result announce record_metric
record_result-triggers out e svc result now name = elim (Bool-cases (step_of e svc result now).2) [
  | inl h ↦ rw h (follow_up_lem _ svc _ now name)
  | inr h ↦ rw h (refl, refl)
]
