-- ===== src/Health/Run.antt =====
-- The running engine: polls, signals and healing attempts in any order (apps/engine/internal/health).
use infrawatch.Prelude.{
  ◌≡◌, subst, ℕ, All, String, List, [], ◌∷◌, some, str_eq, arith, eq_iff, Bool-cases, Option-cases,
  inl, inr,
}
use infrawatch.Prelude.Map.{lookup-insert}
use infrawatch.Prelude.Time.{Instant}
use infrawatch.Alerts.Dispatcher.{Dispatcher}
use infrawatch.Circuit.Registry.{Registry}
use infrawatch.Config.{ServiceConfig, is_passive}
use infrawatch.Healing.Healer.{Healer}
use infrawatch.Health.AlertSignal.{AlertSignal, handle, handle_found, apply_signal}
use infrawatch.Health.Fsm.{set_floor, clear_floor}
use infrawatch.Health.Manager.{
  Outside, Engine, new_state_manager, state_of, set_alert_floor, clear_alert_floor, run_healing,
  run_write,
}
use infrawatch.Health.Manager.Effect.{incidents_of}
use infrawatch.Health.Manager.Incidents.{
  InStep, outages, run_write-InStep, new_state_manager-InStep,
}
use infrawatch.Health.Poller.{Poller, lookup_service, poll, poll_now, poll_found}
use infrawatch.Health.Poller.Poll.{poll-InStep}
use infrawatch.Storage.Writes.{settled}
use infrawatch.Storage.{no_faults, empty_db, count_open}

-- What happens in the engine: a loop polls a service, a signal arrives (with the configuration of
-- that time), a healing attempt runs, a goroutine that writes a change of state carries out its next statement.
pub data Step : Type 0 where
  polled : ServiceConfig → Instant → Step
  signalled : Poller → AlertSignal → Instant → Step
  healed : ServiceConfig → Instant → Step
  wrote : ℕ → Instant → Step

abbrev pub step : Outside → Engine → Step → Engine
step out e (polled svc now) = poll out e svc now
step out e (signalled p sig now) = handle out p e sig now
step out e (healed svc now) = run_healing out e svc now
step out e (wrote i now) = run_write out e i now

-- Each step has its own surroundings: a request is answered now in one way and then in another.
unfoldable pub run : Engine → List (Outside × Step) → Engine
run e [] = e
run e ((out, x) ∷ steps) = run (step out e x) steps

-- Writes of changes of state run one after the other, in the order in which they were started.
abbrev pub InOrder : Step → Type 0
InOrder (wrote i now) = i ≡ 0
InOrder _ = Unit

set_alert_floor-InStep :
    (e : Engine) (name reason : String) → InStep e → InStep (set_alert_floor e name reason)
unfolding set_alert_floor set_floor
set_alert_floor-InStep e name reason v = record {
  stored = v.stored;
  one = v.one;
  queued = v.queued;
  follows = λ other.
      rw (lookup-insert other name (set_floor (state_of e name) reason) e.states) ground
        (arith, v.follows other, eq_iff name other);
}

clear_alert_floor-InStep :
    (e : Engine) (name : String) → InStep e → InStep (clear_alert_floor e name)
unfolding clear_alert_floor clear_floor
clear_alert_floor-InStep e name v = record {
  stored = v.stored;
  one = v.one;
  queued = v.queued;
  follows = λ other.
      rw (lookup-insert other name (clear_floor (state_of e name)) e.states) ground
        (arith, v.follows other, eq_iff name other);
}

poll_now-InStep :
    (out : Outside) (p : Poller) (e : Engine) (name : String) (now : Instant)
    → InStep e
    → InStep (poll_now out p e name now).0
unfolding poll_now
poll_now-InStep out p e name now v = elim (Option-cases (lookup_service p name)) [
  | inl h ↦ rw (h, poll_found) v
  | inr (svc, h) ↦ rw (h, poll_found) (poll-InStep out e svc now v)
]

handle-InStep :
    (out : Outside) (p : Poller) (e : Engine) (sig : AlertSignal) (now : Instant)
    → InStep e
    → InStep (handle out p e sig now)
unfolding handle
handle-InStep out p e sig now v = elim (Option-cases (lookup_service p sig.service_name)) [
  | inl h ↦ rw (h, handle_found) v
  | inr (svc, h) ↦
      rw (h, handle_found)
        (elim (Bool-cases (is_passive svc)) [
          | inl passive ↦ rw passive (elim (Bool-cases (str_eq sig.status "firing")) [
            | inl firing ↦
                rw (apply_signal, firing)
                  (poll_now-InStep out p (set_alert_floor e sig.service_name sig.reason)
                    sig.service_name now (set_alert_floor-InStep e sig.service_name sig.reason v))
            | inr other ↦ elim (Bool-cases (str_eq sig.status "resolved")) [
              | inl resolved ↦
                  rw (apply_signal, other, resolved)
                    (poll_now-InStep out p (clear_alert_floor e sig.service_name) sig.service_name
                      now (clear_alert_floor-InStep e sig.service_name v))
              | inr unknown ↦ rw (apply_signal, other, unknown) v
            ]
          ])
          | inr active ↦ rw active v
        ])
]

run_healing-InStep :
    (out : Outside) (e : Engine) (svc : ServiceConfig) (now : Instant)
    → InStep e
    → InStep (run_healing out e svc now)
unfolding run_healing
run_healing-InStep out e svc now v = record {
  stored = v.stored;
  one = v.one;
  queued = v.queued;
  follows = v.follows;
}

step-InStep :
    (out : Outside) (e : Engine) (x : Step)
    → out.faults ≡ no_faults
    → InOrder x
    → InStep e
    → InStep (step out e x)
step-InStep out e (polled svc now) sound o v = poll-InStep out e svc now v
step-InStep out e (signalled p sig now) sound o v = handle-InStep out p e sig now v
step-InStep out e (healed svc now) sound o v = run_healing-InStep out e svc now v
step-InStep out e (wrote i now) sound o v = rw o (run_write-InStep out e now sound v)

run-InStep :
    (e : Engine) (steps : List (Outside × Step))
    → All (λ s. s.0.faults ≡ no_faults) steps
    → All (λ s. InOrder s.1) steps
    → InStep e
    → InStep (run e steps)
unfolding run
run-InStep e [] sound o v = v
run-InStep e ((out, x) ∷ steps) sound o v =
    run-InStep (step out e x) steps sound.1 o.1 (step-InStep out e x sound.0 o.0 v)

-- Of an engine that was started with an empty database, after any polls, signals, healing attempts and statements of the goroutines that
-- write changes of state: if no database statement fails, and these goroutines run one after the other in the order in which they
-- were started, at whatever times, and all are done, then each service has as many unresolved incidents as its
-- state asks for: one if it is UNHEALTHY or DEAD, and else none.
pub incidents_follow :
    (alerts : Dispatcher) (healer : Healer) (cb : Registry) (steps : List (Outside × Step))
    (name : String)
    → All (λ s. s.0.faults ≡ no_faults) steps
    → All (λ s. InOrder s.1) steps
    → (run (new_state_manager alerts healer cb (some empty_db)) steps).writes ≡ []
    → let e = run (new_state_manager alerts healer cb (some empty_db)) steps in
      count_open name (incidents_of e.db) ≡ outages (state_of e name).current_state
incidents_follow alerts healer cb steps name sound o done =
    let start = new_state_manager alerts healer cb (some empty_db) in
    subst
      (λ ws.
        settled name ws (count_open name (incidents_of (run start steps).db))
        ≡ outages (state_of (run start steps) name).current_state)
      done
      ((run-InStep start steps sound o (new_state_manager-InStep alerts healer cb)).follows name)
