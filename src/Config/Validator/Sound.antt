-- ===== src/Config/Validator/Sound.antt =====
-- What a configuration that the validation accepts is like: `Validate` of
-- apps/engine/config/validator.go against a description of the services' parts.
use infrawatch.Prelude.{
  ◌≡◌, refl, subst, ◌≢◌, ◌⊎◌, ℕ, suc, String, Bool, true, false, not, ◌&&◌, List, [], ◌∷◌, ◌++◌,
  Option, str_eq, eq_iff, arith, All, if◌then◌else◌,
}
use infrawatch.Prelude.Int.{pos, leb_ℤ, ltb_ℤ}
use infrawatch.Alerts.Channels.{contains}
use infrawatch.Config.{ServiceConfig, mode_active, mode_passive, is_passive, Config}
use infrawatch.Config.Names.{is_docker_name, is_k8s_name}
use infrawatch.Config.Validator.{
  ServiceProblem, bad_mode, unknown_action, depends_on_itself, negative_interval, negative_timeout,
  fallback_url_required, webhook_required, docker_problems, kubectl_problems, add_if, name_problems,
  taken, is_http, is_method, mode_problems, dependency_problems, is_action, unknown_actions,
  action_problems, actions_problems, service_problems, at, services_problems, redis_problems,
  api_problems, circuit_problems, anomaly_problems, alerts_problems, healing_problems, validate,
}

append-nil : {A : Type 0} (xs ys : List A) → xs ++ ys ≡ [] → (xs ≡ []) × (ys ≡ [])
append-nil [] ys h = (refl, h)
append-nil (x ∷ xs) ys h = absurd (ground (arith, h))

add_if-nil : {A : Type 0} (b : Bool) (p : A) → add_if b p ≡ [] → b ≡ false
add_if-nil true p h = absurd (ground (arith, h))
add_if-nil false p h = refl

-- No service has the name of an earlier one, nor one of the given names.
abbrev pub AreFresh : List String → List ServiceConfig → Type 0
AreFresh seen [] = Unit
AreFresh seen (svc ∷ services) =
    (contains svc.name seen ≡ false) × AreFresh (svc.name ∷ seen) services

-- The healing action has what it needs.
abbrev pub CanRun : ServiceConfig → String → Type 0
CanRun svc a =
    ((a ≡ "docker_restart") × (is_docker_name svc.container_name ≡ true))
    ⊎ ((a ≡ "kubectl_restart")
        × (is_k8s_name svc.deployment ≡ true)
        × (is_k8s_name svc.namespace ≡ true))
    ⊎ ((a ≡ "fallback") × (◌≢◌ {A = String} svc.fallback_url ""))
    ⊎ ((a ≡ "webhook") × (◌≢◌ {A = String} svc.healing_webhook ""))

-- The service is passive and has no URL, or it has one to poll and statuses to expect.
abbrev pub CanPoll : (String → Option String) → ServiceConfig → Type 0
CanPoll scheme svc =
    ((is_passive svc ≡ true) × (svc.url ≡ ""))
    ⊎ ((is_passive svc ≡ false)
        × (is_http (scheme svc.url) ≡ true)
        × (is_method svc.method ≡ true)
        × (leb_ℤ (pos 100) svc.expect_status ≡ true)
        × (leb_ℤ svc.expect_status (pos 599) ≡ true))

pub record IsSound (scheme : String → Option String) (svc : ServiceConfig) : Type 0 where
  pub named : ◌≢◌ {A = String} svc.name ""
  pub polled : CanPoll scheme svc
  pub interval : leb_ℤ (pos 0) svc.interval ≡ true
  pub timeout : leb_ℤ (pos 0) svc.timeout ≡ true
  pub independent : All (λ dep. dep ≢ svc.name) svc.dependencies
  pub actions : All (CanRun svc) svc.healing_actions

named_sound :
    (seen : List String) (svc : ServiceConfig)
    → name_problems seen svc ≡ []
    → (◌≢◌ {A = String} svc.name "") × (contains svc.name seen ≡ false)
unfolding name_problems
named_sound seen svc h = ground (arith, eq_iff svc.name "")

polled_sound :
    (scheme : String → Option String) (svc : ServiceConfig)
    → mode_problems scheme svc ≡ []
    → CanPoll scheme svc
unfolding mode_problems
polled_sound scheme svc h =
    let r =
      (append-nil
        (add_if
          (not (str_eq svc.mode "")
            && not (str_eq svc.mode mode_active)
            && not (str_eq svc.mode mode_passive))
          bad_mode)
        _ h).1 in
    ground (arith, r, eq_iff svc.url "")

docker_sound :
    (svc : ServiceConfig) → docker_problems svc ≡ [] → is_docker_name svc.container_name ≡ true
unfolding docker_problems
docker_sound svc h = ground (arith, h)

kubectl_sound :
    (svc : ServiceConfig)
    → kubectl_problems svc ≡ []
    → (is_k8s_name svc.deployment ≡ true) × (is_k8s_name svc.namespace ≡ true)
unfolding kubectl_problems
kubectl_sound svc h = ground (arith, h)

if-nil : {A : Type 0} (b : Bool) (xs : List A) → (if b then xs else []) ≡ [] → b ≡ true → xs ≡ []
if-nil true xs h e = h
if-nil false xs h e = absurd (ground (arith, e))

action_sound :
    (svc : ServiceConfig) (a : String)
    → is_action a ≡ true
    → action_problems svc a ≡ []
    → CanRun svc a
unfolding is_action action_problems
action_sound svc a k h =
    let no_fallback = str_eq a "fallback" && str_eq svc.fallback_url "" in
    let no_hook = str_eq a "webhook" && str_eq svc.healing_webhook "" in
    let docker = if str_eq a "docker_restart" then docker_problems svc else [] in
    let kubectl = if str_eq a "kubectl_restart" then kubectl_problems svc else [] in
    let fallbacks = add_if no_fallback fallback_url_required in
    let hooks = add_if no_hook webhook_required in
    let (h1, h3) = append-nil (fallbacks ++ hooks ++ docker) kubectl h in
    let (h2, d) = append-nil (fallbacks ++ hooks) docker h1 in
    let (f, w) = append-nil fallbacks hooks h2 in
    ground (
      arith,
      add_if-nil no_fallback fallback_url_required f,
      add_if-nil no_hook webhook_required w,
      if-nil (str_eq a "docker_restart") (docker_problems svc) d,
      if-nil (str_eq a "kubectl_restart") (kubectl_problems svc) h3,
      docker_sound svc,
      kubectl_sound svc,
      eq_iff a "fallback",
      eq_iff a "webhook",
      eq_iff a "docker_restart",
      eq_iff a "kubectl_restart",
      eq_iff svc.fallback_url "",
      eq_iff svc.healing_webhook "",
    )

dependencies_sound :
    (name : String) (deps : List String)
    → dependency_problems name deps ≡ []
    → All (λ dep. dep ≢ name) deps
unfolding dependency_problems
dependencies_sound name [] h = tt
dependencies_sound name (dep ∷ deps) h =
    let (d, h1) =
      append-nil (add_if (str_eq dep name) depends_on_itself) (dependency_problems name deps) h in
    (ground (arith, d, eq_iff dep name), dependencies_sound name deps h1)

actions_sound :
    (svc : ServiceConfig) (actions : List String)
    → unknown_actions actions ≡ []
    → actions_problems svc actions ≡ []
    → All (CanRun svc) actions
unfolding unknown_actions actions_problems
actions_sound svc [] k h = tt
actions_sound svc (a ∷ actions) k h =
    let (k0, k1) =
      append-nil (add_if (not (is_action a)) (unknown_action a)) (unknown_actions actions) k in
    let (h0, h1) = append-nil (action_problems svc a) (actions_problems svc actions) h in
    (action_sound svc a (ground (arith, k0)) h0, actions_sound svc actions k1 h1)

service-IsSound :
    (scheme : String → Option String) (seen : List String) (svc : ServiceConfig)
    → service_problems scheme seen svc ≡ []
    → (contains svc.name seen ≡ false) × IsSound scheme svc
unfolding service_problems
service-IsSound scheme seen svc h =
    let deps = dependency_problems svc.name svc.dependencies in
    let unknown = unknown_actions svc.healing_actions in
    let needs = actions_problems svc svc.healing_actions in
    let early = add_if (ltb_ℤ svc.interval (pos 0)) negative_interval in
    let late = add_if (ltb_ℤ svc.timeout (pos 0)) negative_timeout in
    let names = name_problems seen svc in
    let modes = mode_problems scheme svc in
    let (h1, a) = append-nil (names ++ modes ++ early ++ late ++ deps ++ unknown) needs h in
    let (h2, u) = append-nil (names ++ modes ++ early ++ late ++ deps) unknown h1 in
    let (h3, d) = append-nil (names ++ modes ++ early ++ late) deps h2 in
    let (h4, t) = append-nil (names ++ modes ++ early) late h3 in
    let (h5, i) = append-nil (names ++ modes) early h4 in
    let (n, m) = append-nil names modes h5 in
    (
      (named_sound seen svc n).1,
      record {
        named = (named_sound seen svc n).0;
        polled = polled_sound scheme svc m;
        interval = ground (arith, add_if-nil (ltb_ℤ svc.interval (pos 0)) negative_interval i);
        timeout = ground (arith, add_if-nil (ltb_ℤ svc.timeout (pos 0)) negative_timeout t);
        independent = dependencies_sound svc.name svc.dependencies d;
        actions = actions_sound svc svc.healing_actions u a;
      },
    )

at-nil : (i : ℕ) (name : String) (ps : List ServiceProblem) → at i name ps ≡ [] → ps ≡ []
unfolding at
at-nil i name [] h = refl
at-nil i name (p ∷ ps) h = absurd (ground (arith, h))

taken-fresh :
    (seen : List String) (svc : ServiceConfig)
    → ◌≢◌ {A = String} svc.name ""
    → contains svc.name seen ≡ false
    → taken seen svc ≡ svc.name ∷ seen
unfolding taken
taken-fresh seen svc n c = ground (arith, eq_iff svc.name "")

services-IsSound :
    (scheme : String → Option String) (seen : List String) (i : ℕ) (services : List ServiceConfig)
    → services_problems scheme seen i services ≡ []
    → AreFresh seen services × All (IsSound scheme) services
unfolding services_problems
services-IsSound scheme seen i [] h = (tt, tt)
services-IsSound scheme seen i (svc ∷ services) h =
    let (p, h1) =
      append-nil (at i svc.name (service_problems scheme seen svc))
        (services_problems scheme (taken seen svc) (suc i) services) h in
    let (f, s) =
      service-IsSound scheme seen svc (at-nil i svc.name (service_problems scheme seen svc) p) in
    let (fs, ss) = services-IsSound scheme (taken seen svc) (suc i) services h1 in
    ((f, subst (λ t. AreFresh t services) (taken-fresh seen svc s.named f) fs), (s, ss))

-- The parts of an accepted configuration: services, Redis, API, circuit.
pub validated :
    (scheme : String → Option String) (cfg : Config)
    → validate scheme cfg ≡ []
    → (services_problems scheme [] 0 cfg.services ≡ []) × (circuit_problems cfg ≡ [])
unfolding validate
validated scheme cfg h =
    let services = services_problems scheme [] 0 cfg.services in
    let redis = redis_problems cfg in
    let api = api_problems cfg in
    let circuit = circuit_problems cfg in
    let anomaly = anomaly_problems cfg in
    let alerts = alerts_problems cfg in
    let (h1, _) =
      append-nil (services ++ redis ++ api ++ circuit ++ anomaly ++ alerts) (healing_problems cfg)
        h in
    let (h2, _) = append-nil (services ++ redis ++ api ++ circuit ++ anomaly) alerts h1 in
    let (h3, _) = append-nil (services ++ redis ++ api ++ circuit) anomaly h2 in
    let (h4, c) = append-nil (services ++ redis ++ api) circuit h3 in
    ((append-nil services redis (append-nil (services ++ redis) api h4).0).0, c)

-- A configuration that is accepted names each service once and with a text, polls over HTTP or not at all, has no service that
-- depends on itself, and each healing action is a known one that has the names or URL it needs.
pub validate-IsSound :
    (scheme : String → Option String) (cfg : Config)
    → validate scheme cfg ≡ []
    → AreFresh [] cfg.services × All (IsSound scheme) cfg.services
unfolding validate
validate-IsSound scheme cfg h = services-IsSound scheme [] 0 cfg.services (validated scheme cfg h).0
