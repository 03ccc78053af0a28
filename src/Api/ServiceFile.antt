-- ===== src/Api/ServiceFile.antt =====
-- apps/api/handlers/config_services.go: the services of the configuration file, as the API lists and
-- changes them. The file is its text; `yaml.Unmarshal`, `yaml.Marshal`, `os.ExpandEnv`, `url.Parse` and
-- `time.ParseDuration` are parameters, and so are the errors of the file system and of Redis. The
-- handlers hold one lock, so each of them is one step.
use infrawatch.Prelude.{ℕ, String, Bool, List, [], Option, ◌⊎◌}
use infrawatch.Prelude.Int.{ℤ, pos}
use infrawatch.Prelude.Map.{Map}
use infrawatch.Prelude.Time.{Instant}
use infrawatch.Config.{ServiceConfig, Config}
use infrawatch.Config.Validator.{Problem}
pub mod Request
pub mod Persist
pub mod Handlers
pub mod Agree
pub mod Accepted
pub mod Effects

pub record UpsertRequest : Type 0 where
  pub name : String
  pub mode : String
  pub url : String
  pub interval : String
  pub timeout : String
  pub method : String
  pub headers : Map String
  pub expect_status : ℤ
  pub expect_body : String
  pub tags : List String
  pub dependencies : List String
  pub container_name : String
  pub namespace : String
  pub deployment : String
  pub healing_actions : List String
  pub fallback_url : String
  pub healing_webhook : String

-- What is called outside; `none` or a text on the right is an error.
pub record Libraries : Type 0 where
  pub unmarshal : String → Config ⊎ String
  pub expand : String → String
  pub marshal : Config → String ⊎ String
  pub scheme : String → Option String
  pub parse_duration : String → ℤ ⊎ String

-- Where saving the file fails, if it does, and whether the temporary file then cannot be removed; a failed
-- write has written a part of the text.
pub data Fault : Type 0 where
  creating : String → Fault
  closing renaming : Bool → String → Fault
  writing : Bool → String → String → Fault

-- What the surroundings of one request answer.
pub record Weather : Type 0 where
  pub unreadable : Option String
  pub fault : Option Fault
  pub redis_down : Option String
  pub has_db : Bool
  pub user_id : String
  pub now : Instant

-- The configuration file, and the temporary files beside it.
pub record Disk : Type 0 where
  pub config : String
  pub temporaries : List String

-- Go's `ServiceConfig{}`.
abbrev pub zero_service : ServiceConfig
zero_service = record {
  name = "";
  mode = "";
  url = "";
  interval = pos 0;
  timeout = pos 0;
  method = "";
  headers = [];
  expect_status = pos 0;
  expect_body = "";
  tags = [];
  dependencies = [];
  container_name = "";
  namespace = "";
  deployment = "";
  healing_actions = [];
  fallback_url = "";
  healing_webhook = "";
}

-- `ServiceConfigCommand`.
pub record Command : Type 0 where
  pub action : String
  pub service_name : String
  pub service : ServiceConfig
  pub timestamp : Instant

pub record ConfigAudit : Type 0 where
  pub action : String
  pub service : String
  pub user_id : String
  pub details : Option ServiceConfig

pub record World : Type 0 where
  pub disk : Disk
  pub commands : List Command
  pub audits : List ConfigAudit

pub data Body : Type 0 where
  failure : String → Body
  rejected : List Problem → Body
  listing : List ServiceConfig → ℕ → Body
  warning : String → String → Option ServiceConfig → Body
  applied : ServiceConfig → Body
  removed : String → Body

pub record Response : Type 0 where
  pub status : ℕ
  pub body : Body

abbrev pub answer : ℕ → Body → Response
answer status body = record { status = status; body = body }
