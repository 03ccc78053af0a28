-- ===== src/Healing/Tests.antt =====
-- The healer's theorems applied to one service (apps/engine/internal/healing).
use infrawatch.Prelude.{
  ◌+◌, ◌≤◌, ◌≡◌, refl, ◌≢◌, String, Bool, true, false, [], ◌∷◌, none, some, arith, eq_iff,
}
use infrawatch.Prelude.Int.{pos, ◌≤ℤ◌}
use infrawatch.Prelude.Map.{lookup, insert, delete}
use infrawatch.Config.{ServiceConfig}
use infrawatch.Config.Samples.{service, healing_config}
use infrawatch.Healing.Fallback.{
  failed, all_failed, get_active_fallback, clear_fallback, reroute, reroute_lem,
}
use infrawatch.Healing.Healer.{Backends, Healer, effective_actions, heal}
use infrawatch.Healing.Healer.Outcome.{FirstSuccess, heal-FirstSuccess}
use infrawatch.Healing.Tracker.{AttemptTracker, new_attempt_tracker, can_attempt}
use infrawatch.Healing.Tracker.Limits.{Shows}
use infrawatch.Healing.Tracker.Series.{
  answers, count_true, all_true, attempts_bounded, Spaced-admitted,
}

abbrev tracker : AttemptTracker
tracker = record { counts = []; reset_at = []; window = pos 60 }

tracker_new : tracker ≡ new_attempt_tracker (pos 60)
unfolding new_attempt_tracker
tracker_new = refl

nothing_shown : Shows tracker "db" none
unfolding lookup
nothing_shown = (refl, refl)

attempts_bounded_example : count_true (answers tracker "db" (pos 2) (5 ∷ 10 ∷ 20 ∷ 60 ∷ [])) ≤ 2
attempts_bounded_example =
    attempts_bounded tracker "db" 2 5 (10 ∷ 20 ∷ 60 ∷ []) nothing_shown
      (omega arith, (omega arith, (omega arith, tt)))

-- The third of them is refused.
third_refused :
    answers tracker "db" (pos 2) (5 ∷ 10 ∷ 20 ∷ 66 ∷ []) ≡ true ∷ true ∷ false ∷ true ∷ []
unfolding answers can_attempt lookup insert delete
third_refused = refl

wide_gap : ¬ (pos (60 + 60) ≤ℤ pos 60)
wide_gap h = omega arith

Spaced-admitted_example : all_true (answers tracker "db" (pos 2) (5 ∷ 65 ∷ 125 ∷ 185 ∷ [])) ≡ true
Spaced-admitted_example =
    Spaced-admitted tracker "db" (pos 2) 60 5 (65 ∷ 125 ∷ 185 ∷ []) (omega arith) wide_gap
      nothing_shown (omega arith, (omega arith, (omega arith, tt)))

abbrev db : ServiceConfig
db = service "db" "active" [] ("docker_restart" ∷ "fallback" ∷ [])

abbrev outside : Backends
outside = record {
  docker_restart = λ svc. failed "docker_restart" (all_failed svc.name) 0;
  kubectl_restart = λ svc. failed "kubectl_restart" (all_failed svc.name) 0;
  post = λ url. none;
}

abbrev healer : Bool → Healer
healer enabled = record { cfg = healing_config enabled; tracker = tracker }

fallback_set : db.fallback_url ≢ ""
fallback_set e = ground (arith, eq_iff "http://standby.local" "")

reroute_lem_example :
    let (m', posts, result) = reroute [] db 5 in
    (result.success ≡ true)
    × (get_active_fallback m' "db" ≡ some "http://standby.local")
    × (get_active_fallback (clear_fallback m' "db") "db" ≡ none)
    × (db.name ≢ "web"
        → (get_active_fallback m' "web" ≡ get_active_fallback [] "web")
          × (get_active_fallback (clear_fallback m' "db") "web" ≡ get_active_fallback [] "web"))
reroute_lem_example = reroute_lem [] db 5 "web" fallback_set

admitted : (can_attempt tracker "db" (pos 2) 5).1 ≡ true
unfolding can_attempt lookup
admitted = refl

two_actions : effective_actions db ≡ some ("docker_restart" ∷ "fallback" ∷ [])
unfolding effective_actions
two_actions = refl

heal-FirstSuccess_example :
    let (h', m', posts, result) = heal outside (healer true) [] db 5 in
    FirstSuccess outside db 5 ("docker_restart" ∷ "fallback" ∷ []) result
    × ((other : String) → db.name ≢ other → lookup other m' ≡ lookup other [])
heal-FirstSuccess_example =
    heal-FirstSuccess outside db 5 (healer true) [] ("docker_restart" ∷ "fallback" ∷ []) refl
      admitted two_actions
