-- ===== src/Health/Poller/Dependencies.antt =====
-- When a poll passes (apps/engine/internal/health/poller.go).
use infrawatch.Prelude.{
  ◌≡◌, refl, ◌∙◌, String, Bool, false, not, ◌&&◌, ◌||◌, List, [], ◌∷◌, str_eq, if◌then◌else◌,
  Option-cases, Bool-cases, inl, inr, arith, eq_iff,
}
use infrawatch.Prelude.Map.{lookup}
use infrawatch.Prelude.Time.{Instant}
use infrawatch.Config.{ServiceConfig, is_passive}
use infrawatch.Health.Checker.{CheckResult, check}
use infrawatch.Health.Fsm
use infrawatch.Health.Fsm.{
  State, dead, unhealthy, unknown, state_eq, ServiceState, new_service_state,
}
use infrawatch.Health.Manager.{
  Outside, Engine, state_of, floor_status, get_snapshot, snapshot_found,
}
use infrawatch.Health.Poller.{
  is_down, failure_reason, state_text, dependency_failure_reason, with_dependencies, own_check,
  passive_result, open_result,
}
use infrawatch.Health.Poller.Poll.{gate, gated, poll_result, own_check_state}
use text.Mathlib.TextLemmas.{append-eq-nil_iff}
use Prim.Native.String.{◌++◌ as ◌+++◌}

-- Some service of the list is DEAD or UNHEALTHY.
abbrev is_severe : State → Bool
is_severe s = state_eq s dead || state_eq s unhealthy

unfoldable pub any_down : Engine → List String → Bool
any_down e [] = false
any_down e (dep ∷ deps) = is_severe (state_of e dep).current_state || any_down e deps

down_state :
    (e : Engine) (dep : String)
    → is_down (get_snapshot e dep) ≡ is_severe (state_of e dep).current_state
unfolding is_down get_snapshot Fsm.snapshot new_service_state
down_state e dep = elim (Option-cases (lookup dep e.states)) [
  | inl h ↦ rw (h, snapshot_found) refl
  | inr (s, h) ↦ rw (h, snapshot_found) refl
]

not_empty : (s t : String) → str_eq (s +++ " is " +++ t) "" ≡ false
not_empty s t = ground (
  arith,
  eq_iff (s +++ " is " +++ t) "",
  append-eq-nil_iff {p = s} {q = " is " +++ t},
  append-eq-nil_iff {p = " is "} {q = t},
  eq_iff " is " "",
)

failure_reason_lem :
    (out : Outside) (e : Engine) (deps : List String)
    → str_eq (failure_reason out e deps) "" ≡ not (any_down e deps)
unfolding failure_reason any_down
failure_reason_lem out e [] = refl
failure_reason_lem out e (dep ∷ deps) = ground (
  arith,
  down_state e dep,
  failure_reason_lem out e deps,
  not_empty (out.quote dep) (state_text (get_snapshot e dep)),
)

any_down-own_check :
    (out : Outside) (e : Engine) (svc : ServiceConfig) (now : Instant) (deps : List String)
    → any_down (own_check out e svc now).0 deps ≡ any_down e deps
unfolding any_down
any_down-own_check out e svc now [] = refl
any_down-own_check out e svc now (dep ∷ deps) =
    rw (own_check_state out e svc now dep, any_down-own_check out e svc now deps) refl

any_down-gated :
    (e : Engine) (svc : ServiceConfig) (now : Instant) (deps : List String)
    → any_down (gated e svc now) deps ≡ any_down e deps
unfolding any_down
any_down-gated e svc now [] = refl
any_down-gated e svc now (dep ∷ deps) = rw (any_down-gated e svc now deps) refl

-- Whether the service's own check passes: that of its alert floor if the service is passive.
abbrev pub own_ok : Outside → Engine → ServiceConfig → Instant → Bool
own_ok out e svc now =
    if is_passive svc
    then not (state_of e svc.name).alert_floor_active
    else (check out.http svc now).ok

own_check_ok :
    (out : Outside) (e : Engine) (svc : ServiceConfig) (now : Instant)
    → (own_check out e svc now).1.ok ≡ own_ok out e svc now
unfolding own_check floor_status passive_result Fsm.floor
own_check_ok out e svc now = ground arith

with_dependencies_ok :
    (r : CheckResult) (reason : String)
    → (with_dependencies r reason).ok ≡ (r.ok && str_eq reason "")
unfolding with_dependencies
with_dependencies_ok r reason = ground arith

-- A poll passes exactly when the service's breaker lets it through, the service's own check passes
-- (the HTTP check, or for a passive service an alert floor that is not set), and none of the
-- declared dependencies is DEAD or UNHEALTHY.
pub poll_result_ok :
    (out : Outside) (e : Engine) (svc : ServiceConfig) (now : Instant)
    → (poll_result out e svc now).ok
      ≡ (not (gate e svc now).1 && (own_ok out e svc now && not (any_down e svc.dependencies)))
unfolding open_result dependency_failure_reason
poll_result_ok out e svc now = elim (Bool-cases (gate e svc now).1) [
  | inl o ↦ rw o refl
  | inr c ↦ rw c (
      with_dependencies_ok _ _
      ∙ rw
          (
            own_check_ok out (gated e svc now) svc now,
            failure_reason_lem out (own_check out (gated e svc now) svc now).0 svc.dependencies,
            any_down-own_check out (gated e svc now) svc now svc.dependencies,
            any_down-gated e svc now svc.dependencies,
          )
          refl)
]
