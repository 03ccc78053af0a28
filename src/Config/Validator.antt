-- ===== src/Config/Validator.antt =====
-- apps/engine/config/validator.go: the checks of a configuration. A message is data here, with what
-- it prints; a configuration is accepted if there is none. What `url.Parse` makes of a URL, its
-- scheme or an error, is the parameter `scheme`.
use infrawatch.Prelude.{
  ℕ, suc, String, Bool, true, false, not, ◌&&◌, ◌||◌, List, [], ◌∷◌, ◌++◌, Option, none, some,
  str_eq, if◌then◌else◌,
}
use infrawatch.Prelude.Int.{ℤ, pos, leb_ℤ, ltb_ℤ}
use infrawatch.Alerts.Channels.{contains}
use infrawatch.Config.{ServiceConfig, mode_active, mode_passive, is_passive, Config}
use infrawatch.Config.Names.{is_docker_name, is_k8s_name, is_upper_of}
pub mod Sound

pub data ServiceProblem : Type 0 where
  name_required bad_mode url_with_passive url_required bad_status negative_interval negative_timeout
        depends_on_itself fallback_url_required webhook_required container_required
        deployment_required :
      ServiceProblem
  duplicate_name bad_url bad_method unknown_action bad_container bad_deployment bad_namespace :
      String → ServiceProblem

pub data Problem : Type 0 where
  service : ℕ → String → ServiceProblem → Problem
  redis_addr redis_db api_addr failure_threshold success_threshold circuit_timeout
        latency_multiplier slack_url pager_duty_key smtp_host email_from email_recipients
        webhook_url max_restart_attempts :
      Problem

-- `if test { ve.add(…) }`.
abbrev pub add_if {ℓ} : {A : Type ℓ} → Bool → A → List A
add_if test p = if test then p ∷ [] else []

unfoldable pub name_problems : List String → ServiceConfig → List ServiceProblem
name_problems seen svc =
    if str_eq svc.name ""
    then name_required ∷ []
    else add_if (contains svc.name seen) (duplicate_name svc.name)

-- The names that are taken once the service was looked at.
unfoldable pub taken : List String → ServiceConfig → List String
taken seen svc = if str_eq svc.name "" || contains svc.name seen then seen else svc.name ∷ seen

unfoldable pub is_http : Option String → Bool
is_http none = false
is_http (some s) = str_eq s "http" || str_eq s "https"

unfoldable pub is_method : String → Bool
is_method m =
    is_upper_of m "GET"
    || is_upper_of m "POST"
    || is_upper_of m "HEAD"
    || is_upper_of m "PUT"
    || is_upper_of m "OPTIONS"

unfoldable pub mode_problems : (String → Option String) → ServiceConfig → List ServiceProblem
mode_problems scheme svc =
    add_if
      (not (str_eq svc.mode "")
        && not (str_eq svc.mode mode_active)
        && not (str_eq svc.mode mode_passive))
      bad_mode
    ++ (if is_passive svc
        then add_if (not (str_eq svc.url "")) url_with_passive
        else (if str_eq svc.url ""
            then url_required ∷ []
            else add_if (not (is_http (scheme svc.url))) (bad_url svc.url))
          ++ add_if (not (is_method svc.method)) (bad_method svc.method)
          ++ add_if (ltb_ℤ svc.expect_status (pos 100) || ltb_ℤ (pos 599) svc.expect_status)
              bad_status)

unfoldable pub dependency_problems : String → List String → List ServiceProblem
dependency_problems name [] = []
dependency_problems name (dep ∷ deps) =
    add_if (str_eq dep name) depends_on_itself ++ dependency_problems name deps

unfoldable pub is_action : String → Bool
is_action a =
    str_eq a "docker_restart"
    || str_eq a "kubectl_restart"
    || str_eq a "fallback"
    || str_eq a "webhook"

unfoldable pub unknown_actions : List String → List ServiceProblem
unknown_actions [] = []
unknown_actions (a ∷ actions) =
    add_if (not (is_action a)) (unknown_action a) ++ unknown_actions actions

-- What the container restart and the kubectl restart need of their service.
unfoldable pub docker_problems : ServiceConfig → List ServiceProblem
docker_problems svc =
    if str_eq svc.container_name ""
    then container_required ∷ []
    else add_if (not (is_docker_name svc.container_name)) (bad_container svc.container_name)

unfoldable pub kubectl_problems : ServiceConfig → List ServiceProblem
kubectl_problems svc =
    if str_eq svc.deployment "" || str_eq svc.namespace ""
    then deployment_required ∷ []
    else add_if (not (is_k8s_name svc.deployment)) (bad_deployment svc.deployment)
      ++ add_if (not (is_k8s_name svc.namespace)) (bad_namespace svc.namespace)

-- What an action needs of its service.
unfoldable pub action_problems : ServiceConfig → String → List ServiceProblem
action_problems svc a =
    add_if (str_eq a "fallback" && str_eq svc.fallback_url "") fallback_url_required
    ++ add_if (str_eq a "webhook" && str_eq svc.healing_webhook "") webhook_required
    ++ (if str_eq a "docker_restart" then docker_problems svc else [])
    ++ (if str_eq a "kubectl_restart" then kubectl_problems svc else [])

unfoldable pub actions_problems : ServiceConfig → List String → List ServiceProblem
actions_problems svc [] = []
actions_problems svc (a ∷ actions) = action_problems svc a ++ actions_problems svc actions

-- The body of the loop over the services.
unfoldable pub service_problems :
    (String → Option String) → List String → ServiceConfig → List ServiceProblem
service_problems scheme seen svc =
    name_problems seen svc
    ++ mode_problems scheme svc
    ++ add_if (ltb_ℤ svc.interval (pos 0)) negative_interval
    ++ add_if (ltb_ℤ svc.timeout (pos 0)) negative_timeout
    ++ dependency_problems svc.name svc.dependencies
    ++ unknown_actions svc.healing_actions
    ++ actions_problems svc svc.healing_actions

-- The prefix of a service's messages.
unfoldable pub at : ℕ → String → List ServiceProblem → List Problem
at i name [] = []
at i name (p ∷ ps) = service i name p ∷ at i name ps

unfoldable pub services_problems :
    (String → Option String) → List String → ℕ → List ServiceConfig → List Problem
services_problems scheme seen i [] = []
services_problems scheme seen i (svc ∷ services) =
    at i svc.name (service_problems scheme seen svc)
    ++ services_problems scheme (taken seen svc) (suc i) services

unfoldable pub redis_problems : Config → List Problem
redis_problems cfg =
    add_if (str_eq cfg.redis.addr "") redis_addr
    ++ add_if (ltb_ℤ cfg.redis.db (pos 0) || ltb_ℤ (pos 15) cfg.redis.db) redis_db

unfoldable pub api_problems : Config → List Problem
api_problems cfg = add_if (str_eq cfg.api.addr "") api_addr

unfoldable pub circuit_problems : Config → List Problem
circuit_problems cfg =
    add_if (ltb_ℤ cfg.circuit.failure_threshold (pos 1)) failure_threshold
    ++ add_if (ltb_ℤ cfg.circuit.success_threshold (pos 1)) success_threshold
    ++ add_if (leb_ℤ cfg.circuit.timeout (pos 0)) circuit_timeout

-- The multiplier is held in thousandths.
unfoldable pub anomaly_problems : Config → List Problem
anomaly_problems cfg = add_if (ltb_ℤ cfg.anomaly.latency_multiplier (pos 1_000)) latency_multiplier

is_nil : List String → Bool
is_nil [] = true
is_nil (_ ∷ _) = false

unfoldable pub alerts_problems : Config → List Problem
unfolding is_nil
alerts_problems cfg =
    add_if (cfg.alerts.slack.enabled && str_eq cfg.alerts.slack.webhook_url "") slack_url
    ++ add_if (cfg.alerts.pager_duty.enabled && str_eq cfg.alerts.pager_duty.integration_key "")
        pager_duty_key
    ++ add_if (cfg.alerts.email.enabled && str_eq cfg.alerts.email.smtp_host "") smtp_host
    ++ add_if (cfg.alerts.email.enabled && str_eq cfg.alerts.email.from "") email_from
    ++ add_if (cfg.alerts.email.enabled && is_nil cfg.alerts.email.recipients) email_recipients
    ++ add_if (cfg.alerts.webhook.enabled && str_eq cfg.alerts.webhook.url "") webhook_url

unfoldable pub healing_problems : Config → List Problem
healing_problems cfg = add_if (ltb_ℤ cfg.healing.max_restart_attempts (pos 0)) max_restart_attempts

-- `Validate`: the problems that it reports, none for a configuration that it accepts.
unfoldable pub validate : (String → Option String) → Config → List Problem
validate scheme cfg =
    services_problems scheme [] 0 cfg.services
    ++ redis_problems cfg
    ++ api_problems cfg
    ++ circuit_problems cfg
    ++ anomaly_problems cfg
    ++ alerts_problems cfg
    ++ healing_problems cfg
