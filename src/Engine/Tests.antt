-- ===== src/Engine/Tests.antt =====
-- Concrete configurations and requests for the theorems on the validation, the API's configuration file
-- and the engine's listeners.
use infrawatch.Prelude.{
  ◌≡◌, refl, sym, ap, subst, inl_inj, ◌⊎◌, inl, inr, String, true, List, [], ◌∷◌, Option, none,
  some, str_eq, All, eq_iff, arith, Bool-cases, if◌then◌else◌,
}
use native.Mathlib.Decide.{ℕ_discrete}
use infrawatch.Prelude.Int.{pos}
use infrawatch.Prelude.Time.{seconds}
use infrawatch.Config.{ServiceConfig, Config, is_passive}
use infrawatch.Config.Samples.{service, sparse_config}
use infrawatch.Config.Defaults.{apply_defaults, services_defaults, service_defaults}
use infrawatch.Config.Names.{is_docker_name, is_upper_of}
use infrawatch.Config.Validator.{
  service as service_problem, duplicate_name, unknown_action, redis_db, validate, services_problems,
  service_problems, name_problems, taken, mode_problems, is_http, is_method, dependency_problems,
  unknown_actions, is_action, action_problems, actions_problems, docker_problems, at,
  redis_problems, api_problems, circuit_problems, anomaly_problems, alerts_problems,
  healing_problems,
}
use infrawatch.Api.ServiceFile.{UpsertRequest, Libraries, Weather, World}
use infrawatch.Api.ServiceFile.Handlers.{Call, post, put, remove, handle, handle_all, with_service}
use infrawatch.Api.ServiceFile.Request.{service_of}
use infrawatch.Api.ServiceFile.Persist.{validate_for_persist}
use infrawatch.Api.ServiceFile.Agree.{stored, reread, validate-stored}
use infrawatch.Api.ServiceFile.Accepted.{RoundTrips, Loads, handle_all-Loads}
use infrawatch.Api.ServiceFile.Effects.{Effect}
use infrawatch.Api.ServiceFile.Effects.Handled.{handle-Effect}
use infrawatch.Circuit.Breaker.{new_breaker}
use infrawatch.Circuit.Breaker.Invariant.{failure, run, IsValid}
use infrawatch.Circuit.Registry.{breaker_config}
use infrawatch.Config.Validator.Sound.{AreFresh, IsSound, validate-IsSound}
use infrawatch.Engine.{apply_commands}
use infrawatch.Engine.Accepted.{AreKnown, validate-served}
use infrawatch.Engine.Mirror.{Mirrors, handle_all-Mirrors}
use infrawatch.Health.Poller.{new_poller}

abbrev scheme : String → Option String
scheme url = if str_eq url "http://db.local/health" then some "http" else none

abbrev db : ServiceConfig
db = service "db" "active" ("cache" ∷ []) ("docker_restart" ∷ "fallback" ∷ [])

abbrev cache : ServiceConfig
cache = service "cache" "" [] []

abbrev two_config : Config
two_config = record sparse_config { services = db ∷ cache ∷ [] }

abbrev one_config : Config
one_config = record sparse_config {
  services = db ∷ [];
  alerts = record (sparse_config.alerts) { state_rules = some [] };
}

-- Configurations that are accepted, and the problems of one that is not.
validated :
    (validate scheme (apply_defaults one_config) ≡ [])
    × ((validate scheme (apply_defaults two_config) ≡ [])
        × (validate scheme (
              apply_defaults (record two_config {
                services = db ∷ service "db" "" [] ("reboot" ∷ []) ∷ [];
                redis = record (sparse_config.redis) { db = pos 16 };
              }))
            ≡ service_problem 1 "db" (duplicate_name "db")
              ∷ service_problem 1 "db" (unknown_action "reboot")
              ∷ redis_db
              ∷ []))
unfolding validate apply_defaults services_defaults service_defaults services_problems
    service_problems name_problems taken mode_problems is_http is_method is_upper_of
    dependency_problems unknown_actions is_action action_problems actions_problems docker_problems
    is_docker_name at redis_problems api_problems circuit_problems anomaly_problems alerts_problems
    healing_problems is_passive
validated = (refl, (refl, refl))

String_discrete : Discrete String
String_discrete s t = elim (Bool-cases (str_eq s t)) [
  | inl e ↦ yes ((eq_iff s t).0 e)
  | inr e ↦ no (λ h. absurd (ground (arith, h, e, eq_iff s t)))
]

Config-discrete : Discrete Config
Config-discrete = hlevel (String_discrete, ℕ_discrete)

abbrev request : UpsertRequest
request = record {
  name = "cache";
  mode = " Active ";
  url = "http://db.local/health";
  interval = "10s";
  timeout = "";
  method = "get";
  headers = [];
  expect_status = pos 0;
  expect_body = "";
  tags = [];
  dependencies = [];
  container_name = "";
  namespace = "";
  deployment = "";
  healing_actions = [];
  fallback_url = "";
  healing_webhook = "";
}

abbrev later_config : Config
later_config =
    stored
      (with_service one_config (service_of request "active" (pos (seconds 10)) (pos (seconds 5))))

-- A library that reads and writes two files.
abbrev read : String → Config ⊎ String
read text' =
    if str_eq text' "one"
    then inl one_config
    else (if str_eq text' "later" then inl later_config else inr "unknown text")

abbrev write_cases :
    (cfg : Config) → Dec (cfg ≡ one_config) → Dec (cfg ≡ later_config) → String ⊎ String
write_cases cfg (yes _) d = inl "one"
write_cases cfg (no _) (yes _) = inl "later"
write_cases cfg (no _) (no _) = inr "unsupported"

abbrev lib : Libraries
lib = record {
  unmarshal = read;
  expand = λ s. s;
  marshal =
      λ cfg. write_cases cfg (Config-discrete cfg one_config) (Config-discrete cfg later_config);
  scheme = scheme;
  parse_duration = λ s. if str_eq s "10s" then inl (pos (seconds 10)) else inr "bad duration";
}

write_cases-read :
    (cfg : Config) (one : Dec (cfg ≡ one_config)) (later : Dec (cfg ≡ later_config))
    (text' : String)
    → write_cases cfg one later ≡ inl text'
    → read text' ≡ inl (reread cfg)
write_cases-read cfg (yes e) later text' h =
    subst (λ t. read t ≡ inl (reread cfg)) (inl_inj {B = String} "one" text' h)
      (ap (λ c. inl (reread c)) (sym e))
write_cases-read cfg (no n) (yes e) text' h =
    subst (λ t. read t ≡ inl (reread cfg)) (inl_inj {B = String} "later" text' h)
      (ap (λ c. inl (reread c)) (sym e))
write_cases-read cfg (no n) (no m) text' h = absurd (ground (arith, h))

lib-RoundTrips : RoundTrips lib
lib-RoundTrips cfg text' h =
    write_cases-read cfg (Config-discrete cfg one_config) (Config-discrete cfg later_config) text' h

abbrev fine : Weather
fine = record {
  unreadable = none;
  fault = none;
  redis_down = none;
  has_db = true;
  user_id = "ops";
  now = 1;
}

abbrev world : World
world = record { disk = record { config = "one"; temporaries = [] }; commands = []; audits = [] }

abbrev calls : List (Weather × Call)
calls = (fine, post (some request)) ∷ (fine, remove "db") ∷ (fine, put "db" none) ∷ []

validate-IsSound_example :
    AreFresh [] (apply_defaults two_config).services
    × All (IsSound scheme) (apply_defaults two_config).services
validate-IsSound_example = validate-IsSound scheme (apply_defaults two_config) (validated.1.0)

validate-served_example :
    IsValid (breaker_config (apply_defaults two_config).circuit) (
      run
        (new_breaker (breaker_config (apply_defaults two_config).circuit))
        (failure 1 ∷ failure 2 ∷ []))
    × All AreKnown (apply_defaults two_config).services
validate-served_example =
    validate-served scheme (apply_defaults two_config) (failure 1 ∷ failure 2 ∷ []) (validated.1.0)

validate-stored_example :
    (validate_for_persist lib two_config).1
    ≡ validate lib.scheme (apply_defaults (validate_for_persist lib two_config).0)
validate-stored_example = validate-stored lib two_config

handle_all-Loads_example : Loads lib (handle_all lib calls world).disk.config
handle_all-Loads_example =
    handle_all-Loads lib calls world lib-RoundTrips (one_config, refl, validated.0) refl

handle-Effect_example : Effect lib fine world (handle lib fine (post (some request)) world)
handle-Effect_example = handle-Effect lib fine (post (some request)) world lib-RoundTrips

handle_all-Mirrors_example : Mirrors lib (new_poller (db ∷ [])) (handle_all lib calls world)
unfolding apply_commands new_poller
handle_all-Mirrors_example =
    handle_all-Mirrors lib (new_poller (db ∷ [])) calls world lib-RoundTrips
      (refl, (refl, (refl, tt))) (one_config, refl, validated.0, λ name. refl)
