-- ===== src/Health/Poller/Poll.antt =====
-- What one poll does (apps/engine/internal/health/poller.go).
use infrawatch.Prelude.{
  ◌≡◌, refl, ◌/◌, String, Bool, str_eq, if◌then◌else◌, Bool-cases, inl, inr, arith, eq_iff,
}
use infrawatch.Prelude.Map.{lookup-insert}
use infrawatch.Prelude.Time.{Instant}
use infrawatch.Config.{ServiceConfig, is_passive}
use infrawatch.Alerts.Dispatcher.{err_string}
use infrawatch.Circuit.Breaker
use infrawatch.Circuit.Breaker.{Breaker, is_open}
use infrawatch.Circuit.Registry.{get, put}
use infrawatch.Events.{circuit_state, publish}
use infrawatch.Health.Checker.{CheckResult}
use infrawatch.Health.Fsm.{transition}
use infrawatch.Health.Manager.{Outside, Engine, state_of, floor_status, record_result}
use infrawatch.Health.Manager.Effect.{state_after}
use infrawatch.Health.Manager.Incidents.{InStep, record_result-InStep}
use infrawatch.Health.Poller.{
  poll, poll_through, own_check, with_dependencies, dependency_failure_reason, feed, open_result,
}

-- The breaker's answer to a poll.
abbrev pub gate : Engine → ServiceConfig → Instant → Breaker × Bool
gate e svc now = is_open (get e.cb svc.name).1 now

abbrev pub gated : Engine → ServiceConfig → Instant → Engine
gated e svc now = record e { cb = put (get e.cb svc.name).0 svc.name (gate e svc now).0 }

-- The result behind the gate, dependencies included.
abbrev checked : Outside → Engine → ServiceConfig → Instant → CheckResult
checked out e svc now =
    let own = own_check out e svc now in
    with_dependencies own.1 (dependency_failure_reason out own.0 svc)

-- The result that a poll records.
abbrev pub poll_result : Outside → Engine → ServiceConfig → Instant → CheckResult
poll_result out e svc now =
    if (gate e svc now).1 then open_result svc now else checked out (gated e svc now) svc now

-- Two engines with the same states, the same database and the same writes under way.
abbrev Alike : Engine → Engine → Type 0
Alike e e' =
    ((name : String) → state_of e' name ≡ state_of e name) × (e'.db ≡ e.db) × (e'.writes ≡ e.writes)

own_check-Alike :
    (out : Outside) (e : Engine) (svc : ServiceConfig) (now : Instant)
    → Alike e (own_check out e svc now).0
unfolding own_check floor_status
own_check-Alike out e svc now = elim (Bool-cases (is_passive svc)) [
  | inl p ↦ rw p (
    λ name.
        rw (lookup-insert name svc.name (state_of e svc.name) e.states) ground
          (arith, eq_iff svc.name name),
    refl,
    refl,
  )
  | inr a ↦ rw a (λ name. refl, refl, refl)
]

pub own_check_state :
    (out : Outside) (e : Engine) (svc : ServiceConfig) (now : Instant) (name : String)
    → state_of (own_check out e svc now).0 name ≡ state_of e name
own_check_state out e svc now name = (own_check-Alike out e svc now).0 name

-- A poll records its result in an engine that is alike.
poll_records :
    (out : Outside) (e : Engine) (svc : ServiceConfig) (now : Instant)
    → (e' : Engine) × Alike e e'
      × (poll out e svc now ≡ record_result out e' svc (poll_result out e svc now) now)
unfolding poll poll_through
poll_records out e svc now = elim (Bool-cases (gate e svc now).1) [
  | inl o ↦ (gated e svc now, (λ name. refl, refl, refl), rw o refl)
  | inr c ↦
      let own = own_check out (gated e svc now) svc now in
      let fed = feed (gate e svc now).0 (checked out (gated e svc now) svc now).ok now in
      (
        record (own.0) {
          cb = put own.0.cb svc.name fed;
          published = publish own.0.published (
              circuit_state (record {
                service_name = svc.name;
                snapshot = Breaker.snapshot fed;
                timestamp = now;
              }));
        },
        own_check-Alike out (gated e svc now) svc now,
        rw c refl,
      )
]

-- A poll makes one transition of the service, with the poll's result, and none of another service.
pub poll-transition :
    (out : Outside) (e : Engine) (svc : ServiceConfig) (now : Instant) (name : String)
    → let r = poll_result out e svc now in
      state_of (poll out e svc now) name ≡ (
        if str_eq svc.name name
        then (transition
            (state_of e svc.name)
            r.ok
            (r.response_time / 1_000_000)
            (err_string r.error)
            now).0
        else state_of e name)
poll-transition out e svc now name =
    let (e', alike, same) = poll_records out e svc now in
    rw
      (
        same,
        state_after out e' svc (poll_result out e svc now) now name,
        alike.0 svc.name,
        alike.0 name,
      )
      refl

Alike-InStep : (e e' : Engine) → Alike e e' → InStep e → InStep e'
Alike-InStep e e' alike v = record {
  stored = rw alike.1 v.stored;
  one = rw alike.1 v.one;
  queued = rw (alike.1, alike.2) v.queued;
  follows = λ name. rw (alike.1, alike.2, alike.0 name) (v.follows name);
}

-- A poll leaves the stored incidents, as the writes under way will leave them, in step with the states.
pub poll-InStep :
    (out : Outside) (e : Engine) (svc : ServiceConfig) (now : Instant)
    → InStep e
    → InStep (poll out e svc now)
poll-InStep out e svc now v =
    let (e', alike, same) = poll_records out e svc now in
    rw same
      (record_result-InStep out e' svc (poll_result out e svc now) now (Alike-InStep e e' alike v))
