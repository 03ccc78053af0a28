-- ===== src/Health/Tests.antt =====
-- A poll of one service, and the theorems about polls applied to it
-- (apps/engine/internal/health).
use infrawatch.Prelude.{
  List, suc, ◌/◌, ◌≡◌, refl, true, false, not, ◌&&◌, [], ◌∷◌, ◌++◌, none, some, if◌then◌else◌,
  str_eq,
}
use infrawatch.Prelude.Int.{pos}
use infrawatch.Prelude.Map.{lookup, insert}
use infrawatch.Circuit.Breaker.{new_breaker, is_open, record_failure, record_success}
use infrawatch.Circuit.Registry.{get, put, breaker_config}
use infrawatch.Health.Checker.{outcome, answer_error, body_error, expected_status}
use infrawatch.Storage.{write_metric, write_alert_history, advance, has_open_incident}
use infrawatch.Health.Fsm.{
  count_check, enter_state, compute_next_state, new_service_state, set_floor, floor, state_name,
}
use infrawatch.Health.AlertSignal.{handle_found, apply_signal}
use infrawatch.Health.Manager.{
  write_attempts, record_metric, announce, follow_up, start_write, run_write, run_healing,
  floor_status, get_snapshot, set_alert_floor,
}
use infrawatch.Health.Poller.{
  poll_through, own_check, with_dependencies, dependency_failure_reason, failure_reason, is_down,
  passive_result, open_result, poll_found, poll_now,
}
use infrawatch.Alerts.Channels.{unique_channels}
use infrawatch.Alerts.Dispatcher.{
  Dispatcher, err_string, record_attempts, dispatch, select_channels_for_alert, is_bad_state,
  lifecycle_of, rules_for,
}
use infrawatch.Config.{ServiceConfig, is_passive}
use infrawatch.Config.Samples.{service, healing_config, circuit_config}
use infrawatch.Healing.Fallback.{failed, all_failed}
use infrawatch.Healing.Healer.{Healer}
use infrawatch.Health.Checker.{Http, answer, readable, check}
use infrawatch.Health.Fsm.{transition}
use infrawatch.Health.Manager.{Outside, Engine, new_state_manager, state_of, record_result}
use infrawatch.Health.Manager.Cooldown.{triggers, record_result-triggers}
use infrawatch.Health.Manager.Incidents.{outages}
use infrawatch.Health.Manager.Effect.{incidents_of}
use infrawatch.Health.Run.{Step, polled, signalled, healed, wrote, run, incidents_follow}
use infrawatch.Health.AlertSignal.{AlertSignal, handle}
use infrawatch.Health.AlertSignal.Firing.{firing_fails}
use infrawatch.Health.Poller.Edits.{upsert, remove, after_edits, OneLoopEach, edits-OneLoopEach}
use infrawatch.Health.Poller.{new_poller, start, Poller, find_service, lookup_service, poll}
use infrawatch.Health.Poller.Poll.{gate, poll_result, poll-transition}
use infrawatch.Health.Poller.Dependencies.{any_down, own_ok, poll_result_ok}
use infrawatch.Storage.{count_open, no_faults, empty_db}

abbrev pager : Dispatcher
pager = record {
  channels = "slack" ∷ [];
  state_rules = ("DEGRADED", "slack" ∷ []) ∷ [];
  has_history = true;
  escalate = false;
  lifecycle = [];
}

abbrev healer : Healer
healer = record {
  cfg = healing_config true;
  tracker = record { counts = []; reset_at = []; window = pos 60 };
}

abbrev engine : Engine
engine =
    new_state_manager pager healer (record { breakers = []; cfg = circuit_config }) (some empty_db)

-- Every request is answered with the status 500.
abbrev server_error : Http
server_error = record {
  canonical = λ key. key;
  exchange = λ r. answer 3_000_000 500 (readable "ok");
}

abbrev outside : Outside
outside = record {
  send = λ channel alert. none;
  http = server_error;
  backends = record {
    docker_restart = λ svc. failed "docker_restart" (all_failed svc.name) 0;
    kubectl_restart = λ svc. failed "kubectl_restart" (all_failed svc.name) 0;
    post = λ url. none;
  };
  faults = no_faults;
  quote = λ s. s;
}

abbrev db : ServiceConfig
db = service "db" "active" ("disk" ∷ []) ("docker_restart" ∷ [])

poll-transition_example :
    let r = poll_result outside engine db 5 in
    state_of (poll outside engine db 5) "db" ≡ (
      if str_eq "db" "db"
      then (transition
          (state_of engine "db")
          r.ok
          (r.response_time / 1_000_000)
          (err_string r.error)
          5).0
      else state_of engine "db")
poll-transition_example = poll-transition outside engine db 5 "db"

poll_result_ok_example : (poll_result outside engine db 5).ok ≡ (
    not (gate engine db 5).1 && (own_ok outside engine db 5 && not (any_down engine ("disk" ∷ []))))
poll_result_ok_example = poll_result_ok outside engine db 5

record_result-triggers_example :
    let result = check server_error db 5 in
    let e = record_result outside engine db result 5 in
    (e.pending
      ≡ (if triggers engine db result 5 then engine.pending ++ db ∷ [] else engine.pending))
    × (lookup "db" e.healing_attempts ≡ (
        if triggers engine db result 5 && str_eq "db" "db"
        then some 5
        else lookup "db" engine.healing_attempts))
record_result-triggers_example =
    record_result-triggers outside engine db (check server_error db 5) 5 "db"

-- A passive service, and a signal that it is down.
abbrev watched : ServiceConfig
watched = service "disk" "passive" [] []

abbrev poller : Poller
poller = record { services = db ∷ watched ∷ []; stop_chans = []; next_chan = 0; loops = [] }

abbrev disk_full : AlertSignal
disk_full = record { service_name = "disk"; status = "firing"; reason = "disk full" }

disk_known : lookup_service poller "disk" ≡ some watched
unfolding find_service
disk_known = refl

disk_passive : is_passive watched ≡ true
unfolding is_passive
disk_passive = refl

firing_fails_example :
    let s = state_of engine "disk" in
    let t = state_of (handle outside poller engine disk_full 5) "disk" in
    (t.alert_floor_active ≡ true)
    × (t.alert_floor_reason ≡ "disk full")
    × (t.consecutive_fails ≡ suc s.consecutive_fails)
    × (t.consecutive_ok ≡ 0)
firing_fails_example =
    firing_fails outside poller engine disk_full watched 5 disk_known disk_passive refl

edits-OneLoopEach_example :
    OneLoopEach
      (after_edits (start (new_poller (db ∷ watched ∷ []))) (remove "db" ∷ upsert db ∷ []))
edits-OneLoopEach_example = edits-OneLoopEach (db ∷ watched ∷ []) (remove "db" ∷ upsert db ∷ [])

-- The service turns UNHEALTHY, and its disk DEGRADED; polls overtake the writes.
abbrev a_day : List (Outside × Step)
a_day =
    (outside, polled db 5)
    ∷ (outside, polled db 35)
    ∷ (outside, wrote 0 36)
    ∷ (outside, signalled poller disk_full 40)
    ∷ (outside, polled db 65)
    ∷ (outside, healed db 70)
    ∷ (outside, wrote 0 71)
    ∷ (outside, wrote 0 72)
    ∷ (outside, wrote 0 73)
    ∷ (outside, wrote 0 74)
    ∷ (outside, wrote 0 75)
    ∷ (outside, wrote 0 76)
    ∷ []

all_written :
    (run
      (new_state_manager pager healer
        (record { breakers = []; cfg = circuit_config })
        (some empty_db))
      a_day).writes
    ≡ []
unfolding new_state_manager run poll poll_through own_check with_dependencies
    dependency_failure_reason failure_reason is_down passive_result open_result poll_found poll_now
    find_service record_result record_metric announce follow_up start_write run_write run_healing
    floor_status get_snapshot set_alert_floor handle handle_found apply_signal transition
    count_check enter_state compute_next_state new_service_state set_floor floor state_name advance
    has_open_incident count_open is_passive check outcome answer_error body_error expected_status
    get put new_breaker breaker_config is_open record_failure record_success lookup insert
    write_attempts record_attempts dispatch select_channels_for_alert is_bad_state lifecycle_of
    write_metric unique_channels rules_for write_alert_history
all_written = refl

incidents_follow_example :
    let e = run engine a_day in
    count_open "db" (incidents_of e.db) ≡ outages (state_of e "db").current_state
incidents_follow_example =
    incidents_follow pager healer (record { breakers = []; cfg = circuit_config }) a_day "db"
      (
        refl,
        (refl, (refl, (refl, (refl, (refl, (refl, (refl, (refl, (refl, (refl, (refl, tt))))))))))),
      )
      (tt, (tt, (refl, (tt, (tt, (tt, (refl, (refl, (refl, (refl, (refl, (refl, tt))))))))))))
      all_written
