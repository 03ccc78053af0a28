-- ===== src/Engine/Accepted.antt =====
-- What the validation of the configuration (apps/engine/config/validator.go) gives to the breakers and the
-- healer, which apps/engine/cmd/main.go makes from it.
use infrawatch.Prelude.{
  ◌≡◌, refl, inl, inr, String, List, [], ◌∷◌, Option, arith, is_some, true, All,
}
use infrawatch.Prelude.Int.{pos, ◌≤ℤ◌}
use infrawatch.Circuit.Breaker.{new_breaker}
use infrawatch.Circuit.Breaker.Invariant.{Call, run, IsValid, run-new_breaker-IsValid}
use infrawatch.Circuit.Registry.{breaker_config}
use infrawatch.Config.{ServiceConfig, Config}
use infrawatch.Config.Validator.{circuit_problems, validate}
use infrawatch.Config.Validator.Sound.{validated, IsSound, CanRun, validate-IsSound}
use infrawatch.Healing.Healer.{action_of}

threshold : (cfg : Config) → circuit_problems cfg ≡ [] → pos 1 ≤ℤ cfg.circuit.failure_threshold
unfolding circuit_problems
threshold cfg h = ground (arith, h)

CanRun-known : (svc : ServiceConfig) (a : String) → CanRun svc a → is_some (action_of a) ≡ true
unfolding action_of
CanRun-known svc a (inl h) = rw (h.0) refl
CanRun-known svc a (inr (inl h)) = rw (h.0) refl
CanRun-known svc a (inr (inr (inl h))) = rw (h.0) refl
CanRun-known svc a (inr (inr (inr h))) = rw (h.0) refl

-- Each healing action is a case of the healer's switch.
abbrev pub AreKnown : ServiceConfig → Type 0
AreKnown svc = All (λ a. is_some (action_of a) ≡ true) svc.healing_actions

actions-known :
    (svc : ServiceConfig) (actions : List String)
    → All (CanRun svc) actions
    → All (λ a. is_some (action_of a) ≡ true) actions
actions-known svc [] h = tt
actions-known svc (a ∷ actions) h = (CanRun-known svc a h.0, actions-known svc actions h.1)

services-known :
    (scheme : String → Option String) (services : List ServiceConfig)
    → All (IsSound scheme) services
    → All AreKnown services
services-known scheme [] h = tt
services-known scheme (svc ∷ services) h =
    (actions-known svc svc.healing_actions h.0.actions, services-known scheme services h.1)

-- Of a configuration that is accepted, every breaker is valid after any calls, and the healer
-- knows every healing action of every service.
pub validate-served :
    (scheme : String → Option String) (cfg : Config) (cs : List Call)
    → validate scheme cfg ≡ []
    → IsValid (breaker_config cfg.circuit) (run (new_breaker (breaker_config cfg.circuit)) cs)
      × All AreKnown cfg.services
unfolding breaker_config
validate-served scheme cfg cs h = (
  run-new_breaker-IsValid (breaker_config cfg.circuit) cs
      (threshold cfg (validated scheme cfg h).1),
  services-known scheme cfg.services (validate-IsSound scheme cfg h).1,
)
