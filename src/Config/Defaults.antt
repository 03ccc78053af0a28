-- ===== src/Config/Defaults.antt =====
-- `applyDefaults` of apps/engine/config/config.go: what a configuration file may leave out.
use infrawatch.Prelude.{
  String, Bool, true, false, List, [], ◌∷◌, Option, none, some, str_eq, if◌then◌else◌,
}
use infrawatch.Prelude.Int.{ℤ, pos, int_eq}
use infrawatch.Prelude.Map.{Map}
use infrawatch.Prelude.Time.{seconds}
use infrawatch.Config.{
  ServiceConfig, mode_active, is_passive, RedisConfig, ApiConfig, CircuitConfig, AnomalyConfig,
  AlertsConfig, StorageConfig, HealingConfig, DockerConfig, Config,
}
pub mod Idempotent

-- `if field == "" { field = value }`, and the same for zero.
abbrev pub text_or : String → String → String
text_or value field = if str_eq field "" then value else field

abbrev pub number_or : ℤ → ℤ → ℤ
number_or value field = if int_eq field (pos 0) then value else field

-- The defaults that every service gets, and those of one that is polled over HTTP.
abbrev timing_defaults : ServiceConfig → ServiceConfig
timing_defaults svc = record svc {
  mode = text_or mode_active svc.mode;
  interval = number_or (pos (seconds 30)) svc.interval;
  timeout = number_or (pos (seconds 5)) svc.timeout;
}

abbrev http_defaults : ServiceConfig → ServiceConfig
http_defaults svc = record svc {
  method = text_or "GET" svc.method;
  expect_status = number_or (pos 200) svc.expect_status;
}

unfoldable pub service_defaults : ServiceConfig → ServiceConfig
service_defaults svc =
    if is_passive (timing_defaults svc)
    then timing_defaults svc
    else http_defaults (timing_defaults svc)

unfoldable pub services_defaults : List ServiceConfig → List ServiceConfig
services_defaults [] = []
services_defaults (svc ∷ services) = service_defaults svc ∷ services_defaults services

abbrev pub default_rules : Map (List String)
default_rules =
    ("DEGRADED", "slack" ∷ [])
    ∷ ("UNHEALTHY", "slack" ∷ [])
    ∷ ("DEAD", "slack" ∷ "pagerduty" ∷ "email" ∷ [])
    ∷ ("RECOVERING", "slack" ∷ [])
    ∷ ("HEALTHY", [])
    ∷ []

abbrev pub rules_or : Option (Map (List String)) → Option (Map (List String))
rules_or none = some default_rules
rules_or (some rules) = some rules

unfoldable pub apply_defaults : Config → Config
apply_defaults cfg = record cfg {
  services = services_defaults cfg.services;
  redis = record (cfg.redis) { addr = text_or "localhost:6379" cfg.redis.addr };
  api = record (cfg.api) {
    addr = text_or ":8080" cfg.api.addr;
    read_timeout = number_or (pos (seconds 15)) cfg.api.read_timeout;
    write_timeout = number_or (pos (seconds 15)) cfg.api.write_timeout;
  };
  circuit = record {
    failure_threshold = number_or (pos 3) cfg.circuit.failure_threshold;
    success_threshold = number_or (pos 1) cfg.circuit.success_threshold;
    timeout = number_or (pos (seconds 30)) cfg.circuit.timeout;
  };
  anomaly = record { latency_multiplier = number_or (pos 2_000) cfg.anomaly.latency_multiplier };
  alerts = record (cfg.alerts) { state_rules = rules_or cfg.alerts.state_rules };
  healing = record (cfg.healing) {
    max_restart_attempts = number_or (pos 3) cfg.healing.max_restart_attempts;
    restart_cooldown = number_or (pos (seconds 60)) cfg.healing.restart_cooldown;
  };
  docker = record (cfg.docker) {
    socket_path = text_or "/var/run/docker.sock" cfg.docker.socket_path;
  };
  storage = record (cfg.storage) {
    max_open_conns = number_or (pos 10) cfg.storage.max_open_conns;
    max_idle_conns = number_or (pos 5) cfg.storage.max_idle_conns;
  };
}
