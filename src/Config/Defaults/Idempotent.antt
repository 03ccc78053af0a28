-- ===== src/Config/Defaults/Idempotent.antt =====
-- Applying the defaults twice is applying them once (apps/engine/config/config.go).
use infrawatch.Prelude.{
  ◌≡◌, refl, String, false, List, [], ◌∷◌, Option, none, some, str_eq, Bool-cases, inl, inr,
}
use infrawatch.Prelude.Int.{ℤ, pos, int_eq}
use infrawatch.Prelude.Map.{Map}
use infrawatch.Prelude.Time.{seconds}
use infrawatch.Config.{ServiceConfig, Config, is_passive, mode_active, mode_passive}
use infrawatch.Config.Defaults.{
  text_or, number_or, service_defaults, services_defaults, rules_or, apply_defaults,
}

text_or_twice :
    (value field : String)
    → str_eq value "" ≡ false
    → text_or value (text_or value field) ≡ text_or value field
text_or_twice value field h = elim (Bool-cases (str_eq field "")) [
  | inl e ↦ rw (e, h) refl
  | inr e ↦ rw (e, e) refl
]

number_or_twice :
    (value field : ℤ)
    → int_eq value (pos 0) ≡ false
    → number_or value (number_or value field) ≡ number_or value field
number_or_twice value field h = elim (Bool-cases (int_eq field (pos 0))) [
  | inl e ↦ rw (e, h) refl
  | inr e ↦ rw (e, e) refl
]

rules_or_twice : (rules : Option (Map (List String))) → rules_or (rules_or rules) ≡ rules_or rules
rules_or_twice none = refl
rules_or_twice (some rules) = refl

-- A service that has the defaults keeps them.
pub service_twice :
    (svc : ServiceConfig) → service_defaults (service_defaults svc) ≡ service_defaults svc
unfolding service_defaults is_passive
service_twice svc =
    let mode = text_or_twice mode_active svc.mode refl in
    let interval = number_or_twice (pos (seconds 30)) svc.interval refl in
    let timeout = number_or_twice (pos (seconds 5)) svc.timeout refl in
    elim (Bool-cases (str_eq (text_or mode_active svc.mode) mode_passive)) [
      | inl e ↦ rw (e, mode, e, interval, timeout) refl
      | inr e ↦
          rw
            (
              e,
              mode,
              e,
              interval,
              timeout,
              text_or_twice "GET" svc.method refl,
              number_or_twice (pos 200) svc.expect_status refl,
            )
            refl
    ]

pub services_twice :
    (services : List ServiceConfig)
    → services_defaults (services_defaults services) ≡ services_defaults services
unfolding services_defaults
services_twice [] = refl
services_twice (svc ∷ services) = rw (service_twice svc, services_twice services) refl

-- Applying the defaults to a configuration that has them changes nothing.
pub apply_defaults_idem : (cfg : Config) → apply_defaults (apply_defaults cfg) ≡ apply_defaults cfg
unfolding apply_defaults
apply_defaults_idem cfg =
    rw
      (
        services_twice cfg.services,
        text_or_twice "localhost:6379" cfg.redis.addr refl,
        text_or_twice ":8080" cfg.api.addr refl,
        number_or_twice (pos (seconds 15)) cfg.api.read_timeout refl,
        number_or_twice (pos (seconds 15)) cfg.api.write_timeout refl,
        number_or_twice (pos 3) cfg.circuit.failure_threshold refl,
        number_or_twice (pos 1) cfg.circuit.success_threshold refl,
        number_or_twice (pos (seconds 30)) cfg.circuit.timeout refl,
        number_or_twice (pos 2_000) cfg.anomaly.latency_multiplier refl,
        rules_or_twice cfg.alerts.state_rules,
        number_or_twice (pos 3) cfg.healing.max_restart_attempts refl,
        number_or_twice (pos (seconds 60)) cfg.healing.restart_cooldown refl,
        text_or_twice "/var/run/docker.sock" cfg.docker.socket_path refl,
        number_or_twice (pos 10) cfg.storage.max_open_conns refl,
        number_or_twice (pos 5) cfg.storage.max_idle_conns refl,
      )
      refl
