-- ===== src/Config.antt =====
-- apps/engine/config/config.go: the configuration. A Go `int` and a `time.Duration` (nanoseconds)
-- are signed integers; the floating-point latency multiplier is held in thousandths. A nil map is
-- `none`.
use infrawatch.Prelude.{String, Bool, List, Option, str_eq}
use infrawatch.Prelude.Int.{ℤ}
use infrawatch.Prelude.Map.{Map}
pub mod Samples
pub mod Defaults
pub mod Load
pub mod Names
pub mod Validator
pub mod Tests

pub record ServiceConfig : Type 0 where
  pub name : String
  pub mode : String
  pub url : String
  pub interval : ℤ
  pub timeout : ℤ
  pub method : String
  pub headers : Map String
  pub expect_status : ℤ
  pub expect_body : String
  pub tags : List String
  pub dependencies : List String
  pub container_name : String
  pub namespace : String
  pub deployment : String
  pub healing_actions : List String
  pub fallback_url : String
  pub healing_webhook : String

abbrev pub mode_active : String
mode_active = "active"

abbrev pub mode_passive : String
mode_passive = "passive"

unfoldable pub is_passive : ServiceConfig → Bool
is_passive s = str_eq s.mode mode_passive

pub record AlertmanagerConfig : Type 0 where
  pub enabled : Bool
  pub webhook_secret : String

pub record RedisConfig : Type 0 where
  pub addr : String
  pub password : String
  pub db : ℤ

pub record ApiConfig : Type 0 where
  pub addr : String
  pub read_timeout : ℤ
  pub write_timeout : ℤ
  pub jwt_secret : String
  pub allow_origins : List String

pub record CircuitConfig : Type 0 where
  pub failure_threshold : ℤ
  pub success_threshold : ℤ
  pub timeout : ℤ

-- In thousandths: 2000 is the default 2.0.
pub record AnomalyConfig : Type 0 where
  pub latency_multiplier : ℤ

pub record SlackConfig : Type 0 where
  pub webhook_url : String
  pub channel : String
  pub enabled : Bool

pub record PagerDutyConfig : Type 0 where
  pub integration_key : String
  pub enabled : Bool

pub record EmailConfig : Type 0 where
  pub smtp_host : String
  pub smtp_port : ℤ
  pub username : String
  pub password : String
  pub from : String
  pub recipients : List String
  pub enabled : Bool

pub record WebhookConfig : Type 0 where
  pub url : String
  pub headers : Map String
  pub enabled : Bool

pub record AlertsConfig : Type 0 where
  pub slack : SlackConfig
  pub pager_duty : PagerDutyConfig
  pub email : EmailConfig
  pub webhook : WebhookConfig
  pub state_rules : Option (Map (List String))
  pub escalate_on_worsening : Bool

pub record StorageConfig : Type 0 where
  pub dsn : String
  pub max_open_conns : ℤ
  pub max_idle_conns : ℤ

pub record HealingConfig : Type 0 where
  pub enabled : Bool
  pub kubeconfig_path : String
  pub max_restart_attempts : ℤ
  pub restart_cooldown : ℤ

pub record DockerConfig : Type 0 where
  pub auto_discover : Bool
  pub socket_path : String
  pub network_filter : String

pub record Config : Type 0 where
  pub services : List ServiceConfig
  pub redis : RedisConfig
  pub api : ApiConfig
  pub circuit : CircuitConfig
  pub anomaly : AnomalyConfig
  pub alerts : AlertsConfig
  pub healing : HealingConfig
  pub docker : DockerConfig
  pub storage : StorageConfig
  pub alertmanager : AlertmanagerConfig
