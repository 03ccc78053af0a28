-- ===== src/Health/AlertSignal/Firing.antt =====
-- What a signal of the external alert system does (apps/engine/internal/health/alertsignal.go).
use infrawatch.Prelude.{
  ◌≡◌, refl, ap, subst, ◌∙◌, ℕ, suc, String, true, false, List, [], ◌∷◌, some, str_eq, arith,
  eq_iff, eq_refl, Bool-cases, inl, inr,
}
use infrawatch.Prelude.Map.{lookup-insert_self}
use infrawatch.Prelude.Time.{Instant}
use infrawatch.Config.{ServiceConfig, is_passive}
use infrawatch.Health.AlertSignal.{AlertSignal, apply_signal, handle_found, handle}
use infrawatch.Health.Fsm.{ServiceState, transition, count_check, enter_state, set_floor}
use infrawatch.Health.Manager.{Outside, Engine, state_of, set_alert_floor}
use infrawatch.Health.Poller.{Poller, find_service, lookup_service, poll, poll_now, poll_found}
use infrawatch.Health.Poller.Dependencies.{poll_result_ok}
use infrawatch.Health.Poller.Poll.{poll_result, poll-transition}

find_service_name :
    (name : String) (services : List ServiceConfig) (svc : ServiceConfig)
    → find_service name services ≡ some svc
    → svc.name ≡ name
unfolding find_service
find_service_name name [] svc h = ground arith
find_service_name name (s ∷ services) svc h = elim (Bool-cases (str_eq s.name name)) [
  | inl e ↦ ground (arith, eq_iff s.name name)
  | inr e ↦ find_service_name name services svc (ground (arith, h, e))
]

-- A failing poll counts one failure more, ends the run of passes and leaves the alert floor.
abbrev Failed : ServiceState → ServiceState → Type 0
Failed s t =
    (t.consecutive_fails ≡ suc s.consecutive_fails)
    × (t.consecutive_ok ≡ 0)
    × (t.alert_floor_active ≡ s.alert_floor_active)
    × (t.alert_floor_reason ≡ s.alert_floor_reason)

transition-Failed :
    (s : ServiceState) (ms : ℕ) (msg : String) (now : Instant)
    → Failed s (transition s false ms msg now).0
unfolding transition count_check enter_state
transition-Failed s ms msg now = ground arith

-- A poll of a passive service whose alert floor is set fails.
floor_fails :
    (out : Outside) (e : Engine) (svc : ServiceConfig) (now : Instant)
    → is_passive svc ≡ true
    → (state_of e svc.name).alert_floor_active ≡ true
    → Failed (state_of e svc.name) (state_of (poll out e svc now) svc.name)
floor_fails out e svc now p f =
    let failing : (poll_result out e svc now).ok ≡ false =
      poll_result_ok out e svc now ∙ ground (arith, p, f) in
    rw (poll-transition out e svc now svc.name, eq_refl svc.name, failing)
      (transition-Failed (state_of e svc.name) _ _ now)

-- The engine with the floor set.
abbrev floored : Engine → AlertSignal → Engine
floored e sig = set_alert_floor e sig.service_name sig.reason

floored_state :
    (e : Engine) (sig : AlertSignal)
    → state_of (floored e sig) sig.service_name ≡ set_floor (state_of e sig.service_name) sig.reason
unfolding set_alert_floor
floored_state e sig = rw (lookup-insert_self sig.service_name _ e.states) refl

-- What a firing signal makes of the service's state.
abbrev Fired : AlertSignal → ServiceState → ServiceState → Type 0
Fired sig s t =
    (t.alert_floor_active ≡ true)
    × (t.alert_floor_reason ≡ sig.reason)
    × (t.consecutive_fails ≡ suc s.consecutive_fails)
    × (t.consecutive_ok ≡ 0)

fired :
    (out : Outside) (e : Engine) (sig : AlertSignal) (svc : ServiceConfig) (now : Instant)
    → svc.name ≡ sig.service_name
    → is_passive svc ≡ true
    → Fired sig
        (state_of e sig.service_name)
        (state_of (poll out (floored e sig) svc now) sig.service_name)
unfolding set_floor
fired out e sig svc now same p =
    let s : state_of (floored e sig) svc.name ≡ set_floor (state_of e sig.service_name) sig.reason =
      rw same (floored_state e sig) in
    let active : (state_of (floored e sig) svc.name).alert_floor_active ≡ true =
      ap (λ (x : ServiceState). x.alert_floor_active) s in
    let (fails, ok, flag, why) = floor_fails out (floored e sig) svc now p active in
    subst
      (λ n. Fired sig (state_of e sig.service_name) (state_of (poll out (floored e sig) svc now) n))
      same
      (
        flag ∙ active,
        why ∙ ap (λ (x : ServiceState). x.alert_floor_reason) s,
        fails ∙ ap (λ (x : ServiceState). suc x.consecutive_fails) s,
        ok,
      )

-- A firing signal for a known passive service sets its alert floor with the signal's reason, and is
-- seen at once: the service is polled, and the poll is a failure.
pub firing_fails :
    (out : Outside) (p : Poller) (e : Engine) (sig : AlertSignal) (svc : ServiceConfig)
    (now : Instant)
    → lookup_service p sig.service_name ≡ some svc
    → is_passive svc ≡ true
    → sig.status ≡ "firing"
    → let s = state_of e sig.service_name in
      let t = state_of (handle out p e sig now) sig.service_name in
      (t.alert_floor_active ≡ true)
      × (t.alert_floor_reason ≡ sig.reason)
      × (t.consecutive_fails ≡ suc s.consecutive_fails)
      × (t.consecutive_ok ≡ 0)
unfolding handle handle_found apply_signal poll_now poll_found
firing_fails out p e sig svc now known passive firing =
    rw (known, passive, firing, poll_now, known, poll_found)
      (fired out e sig svc now (find_service_name sig.service_name p.services svc known) passive)
