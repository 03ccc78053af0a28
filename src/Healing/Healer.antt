-- ===== src/Healing/Healer.antt =====
-- `Healer` of apps/engine/internal/healing/healer.go. The restarts through Docker and kubectl (and
-- the HTTP client of the webhook) are outside: parameters that give each restart's result.
use infrawatch.Prelude.{
  ◌≡◌, refl, ◌⊎◌, inl, inr, ℕ, String, Bool, true, false, not, ◌||◌, List, [], ◌∷◌, ◌++◌, Option,
  none, some, arith, str_eq, if◌then◌else◌, Bool-cases,
}
use infrawatch.Prelude.Int.{ℤ, pos, leb_ℤ}
use infrawatch.Prelude.Time.{Instant, seconds}
use infrawatch.Config.{ServiceConfig, HealingConfig}
use infrawatch.Healing.Tracker.{AttemptTracker, new_attempt_tracker, can_attempt}
use infrawatch.Healing.Fallback.{
  HealError, healing_disabled, attempts_exhausted, no_actions, all_failed, HealResult, failed,
  Fallbacks, reroute, webhook as post_webhook,
}
pub mod Outcome

-- What the healer calls outside.
pub record Backends : Type 0 where
  pub docker_restart : ServiceConfig → HealResult
  pub kubectl_restart : ServiceConfig → HealResult
  pub post : String → Option String

pub record Healer : Type 0 where
  pub cfg : HealingConfig
  pub tracker : AttemptTracker

-- The window of the tracker is the cooldown, or a minute if that is not positive.
unfoldable pub new_healer : HealingConfig → Healer
new_healer cfg = record {
  cfg = cfg;
  tracker =
      new_attempt_tracker
        (if leb_ℤ cfg.restart_cooldown (pos 0) then pos (seconds 60) else cfg.restart_cooldown);
}

unfoldable pub cooldown : Healer → ℤ
cooldown h = h.cfg.restart_cooldown

-- The limit of attempts: 3 if none is configured.
abbrev pub max_attempts : HealingConfig → ℤ
max_attempts cfg =
    if leb_ℤ cfg.max_restart_attempts (pos 0) then pos 3 else cfg.max_restart_attempts

is_empty : List String → Bool
is_empty [] = true
is_empty (_ ∷ _) = false

-- The configured actions, or the restart that the configuration suggests; none if there is nothing
-- to do.
unfoldable pub effective_actions : ServiceConfig → Option (List String)
unfolding is_empty
effective_actions svc =
    if not (is_empty svc.healing_actions)
    then some svc.healing_actions
    else (if not (str_eq svc.container_name "")
        then some ("docker_restart" ∷ [])
        else (if not (str_eq svc.deployment "") then some ("kubectl_restart" ∷ []) else none))

pub data Action : Type 0 where
  docker kubectl fallback webhook : Action

-- The cases of the switch on an action's name; none is its default case.
unfoldable pub action_of : String → Option Action
action_of name =
    if str_eq name "docker_restart"
    then some docker
    else (if str_eq name "kubectl_restart"
        then some kubectl
        else (if str_eq name "fallback"
            then some fallback
            else (if str_eq name "webhook" then some webhook else none)))

unfoldable pub run_action :
    Backends → Fallbacks → ServiceConfig → Action → Instant → Fallbacks × List String × HealResult
run_action out m svc docker now = (m, [], out.docker_restart svc)
run_action out m svc kubectl now = (m, [], out.kubectl_restart svc)
run_action out m svc fallback now = reroute m svc now
run_action out m svc webhook now = let (posts, r) = post_webhook out.post svc now in (m, posts, r)

-- The loop over the actions: the first one that succeeds ends it. `sent` are the URLs that were
-- posted to so far.
unfoldable pub run_actions :
    Backends
    → Fallbacks
    → List String
    → ServiceConfig
    → List String
    → Instant
    → Fallbacks × List String × HealResult
run_actions out m sent svc [] now = (m, sent, failed "all_failed" (all_failed svc.name) now)
run_actions out m sent svc (action ∷ actions) now = elim (action_of action) [
  | none ↦ run_actions out m sent svc actions now
  | some a ↦
      let (m', posts, r) = run_action out m svc a now in
      let rest = run_actions out m' (sent ++ posts) svc actions now in
      if r.success then (m', sent ++ posts, record r { timestamp = now }) else rest
]

heal_with :
    Backends
    → Fallbacks
    → ServiceConfig
    → Option (List String)
    → Instant
    → Fallbacks × List String × HealResult
heal_with out m svc none now = (m, [], failed "none" (no_actions svc.name) now)
heal_with out m svc (some actions) now = run_actions out m [] svc actions now

-- `Heal`: the healer with its tracker, the fallbacks, the URLs posted to and the result.
unfoldable pub heal :
    Backends
    → Healer
    → Fallbacks
    → ServiceConfig
    → Instant
    → Healer × Fallbacks × List String × HealResult
unfolding heal_with
heal out h m svc now =
    if not h.cfg.enabled
    then (h, m, [], failed "none" healing_disabled now)
    else (let max = max_attempts h.cfg in
        let (t, ok) = can_attempt h.tracker svc.name max now in
        let h' = record h { tracker = t } in
        if not ok
        then (h', m, [], failed "none" (attempts_exhausted max svc.name) now)
        else (let (m', posts, r) = heal_with out m svc (effective_actions svc) now in
            (h', m', posts, r)))
