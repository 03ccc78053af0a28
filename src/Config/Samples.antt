-- ===== src/Config/Samples.antt =====
-- Settings for the tests (apps/engine/config/config.go).
use infrawatch.Prelude.{◌∷◌, false, true, none, String, Bool, List, []}
use infrawatch.Prelude.Int.{pos}
use infrawatch.Prelude.Time.{seconds}
use infrawatch.Config.{ServiceConfig, HealingConfig, CircuitConfig, Config}

abbrev pub service : String → String → List String → List String → ServiceConfig
service name mode dependencies actions = record {
  name = name;
  mode = mode;
  url = "http://db.local/health";
  interval = pos (seconds 30);
  timeout = pos (seconds 5);
  method = "GET";
  headers = [];
  expect_status = pos 200;
  expect_body = "ok";
  tags = [];
  dependencies = dependencies;
  container_name = "db";
  namespace = "";
  deployment = "";
  healing_actions = actions;
  fallback_url = "http://standby.local";
  healing_webhook = "http://hooks.local/db";
}

abbrev pub healing_config : Bool → HealingConfig
healing_config enabled = record {
  enabled = enabled;
  kubeconfig_path = "";
  max_restart_attempts = pos 2;
  restart_cooldown = pos 60;
}

abbrev pub circuit_config : CircuitConfig
circuit_config = record { failure_threshold = pos 2; success_threshold = pos 1; timeout = pos 30 }

-- A file that sets only a service and the Redis address.
abbrev pub sparse_config : Config
sparse_config = record {
  services =
      record (service "db" "" [] []) { interval = pos 0; method = ""; expect_status = pos 0 } ∷ [];
  redis = record { addr = "redis:6379"; password = ""; db = pos 0 };
  api = record {
    addr = "";
    read_timeout = pos 0;
    write_timeout = pos 0;
    jwt_secret = "";
    allow_origins = [];
  };
  circuit = record { failure_threshold = pos 0; success_threshold = pos 0; timeout = pos 0 };
  anomaly = record { latency_multiplier = pos 0 };
  alerts = record {
    slack = record { webhook_url = ""; channel = ""; enabled = false };
    pager_duty = record { integration_key = ""; enabled = false };
    email = record {
      smtp_host = "";
      smtp_port = pos 0;
      username = "";
      password = "";
      from = "";
      recipients = [];
      enabled = false;
    };
    webhook = record { url = ""; headers = []; enabled = false };
    state_rules = none;
    escalate_on_worsening = false;
  };
  healing = record {
    enabled = true;
    kubeconfig_path = "";
    max_restart_attempts = pos 0;
    restart_cooldown = pos 0;
  };
  docker = record { auto_discover = false; socket_path = ""; network_filter = "" };
  storage = record { dsn = ""; max_open_conns = pos 0; max_idle_conns = pos 0 };
  alertmanager = record { enabled = false; webhook_secret = "" };
}
