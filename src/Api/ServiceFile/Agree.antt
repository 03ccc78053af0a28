-- ===== src/Api/ServiceFile/Agree.antt =====
-- The two copies of the defaults: `applyValidationDefaults` of apps/api/handlers/config_services.go and
-- `applyDefaults` of apps/engine/config/config.go, under the engine's validation.
use infrawatch.Prelude.{◌≡◌, refl, String, Option, some, get_or, List, [], ◌∷◌, arith}
use infrawatch.Prelude.Int.{ℤ, pos, ltb_ℤ}
use infrawatch.Config.{ServiceConfig, Config}
use infrawatch.Config.Defaults.{number_or, service_defaults, services_defaults, apply_defaults}
use infrawatch.Config.Defaults.Idempotent.{services_twice}
use infrawatch.Config.Validator.{
  redis_problems, api_problems, circuit_problems, anomaly_problems, alerts_problems,
  healing_problems, validate,
}
use infrawatch.Api.ServiceFile.{Libraries}
use infrawatch.Api.ServiceFile.Persist.{
  validation_services, apply_validation_defaults, validate_for_persist,
}

pub services_agree :
    (services : List ServiceConfig) → validation_services services ≡ services_defaults services
unfolding validation_services services_defaults service_defaults
services_agree [] = refl
services_agree (svc ∷ services) = rw (services_agree services) refl

-- A default for the limit of attempts does not make it negative or hide that it is.
limit_agrees : (n : ℤ) → ltb_ℤ (number_or (pos 3) n) (pos 0) ≡ ltb_ℤ n (pos 0)
limit_agrees n = ground arith

-- What is saved: the services have their defaults, and the rest is as the file had it.
abbrev pub normal : Config → Config
normal cfg = record cfg { services = validation_services cfg.services }

-- What is read where a configuration was written: YAML writes a nil map as `{}`, which is read as an
-- empty map. Of the maps only the state rules are ever compared with nil.
abbrev pub reread : Config → Config
reread cfg = record cfg {
  alerts = record (cfg.alerts) { state_rules = some (get_or cfg.alerts.state_rules []) };
}

-- What is read once it has been saved.
abbrev pub stored : Config → Config
stored cfg = reread (normal cfg)

-- The state rules are not validated.
pub validate-reread :
    (scheme : String → Option String) (cfg : Config)
    → validate scheme (apply_defaults (reread cfg)) ≡ validate scheme (apply_defaults cfg)
unfolding validate apply_defaults redis_problems api_problems circuit_problems anomaly_problems
    alerts_problems healing_problems
validate-reread scheme cfg = refl

-- The validation before a configuration is saved reports the problems that the engine's validation reports for the
-- configuration that is saved, once that has the engine's defaults.
pub validate-stored :
    (lib : Libraries) (cfg : Config)
    → (validate_for_persist lib cfg).1
      ≡ validate lib.scheme (apply_defaults (validate_for_persist lib cfg).0)
unfolding validate_for_persist validate apply_validation_defaults apply_defaults redis_problems
    api_problems circuit_problems anomaly_problems alerts_problems healing_problems
validate-stored lib cfg =
    rw
      (
        limit_agrees cfg.healing.max_restart_attempts,
        services_agree cfg.services,
        services_twice cfg.services,
      )
      refl
