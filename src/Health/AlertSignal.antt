-- ===== src/Health/AlertSignal.antt =====
-- apps/engine/internal/health/alertsignal.go: signals of an external alert system.
use infrawatch.Prelude.{String, Option, none, some, not, if◌then◌else◌, str_eq}
use infrawatch.Prelude.Time.{Instant}
use infrawatch.Config.{ServiceConfig, is_passive}
use infrawatch.Health.Manager.{Outside, Engine, set_alert_floor, clear_alert_floor}
use infrawatch.Health.Poller.{Poller, lookup_service, poll_now}
pub mod Firing

pub record AlertSignal : Type 0 where
  pub service_name : String
  pub status : String
  pub reason : String

-- The switch on the signal's status.
unfoldable pub apply_signal : Outside → Poller → Engine → AlertSignal → Instant → Engine
apply_signal out p e sig now =
    if str_eq sig.status "firing"
    then (poll_now out p (set_alert_floor e sig.service_name sig.reason) sig.service_name now).0
    else (if str_eq sig.status "resolved"
        then (poll_now out p (clear_alert_floor e sig.service_name) sig.service_name now).0
        else e)

unfoldable pub handle_found :
    Outside → Poller → Engine → AlertSignal → Instant → Option ServiceConfig → Engine
unfolding apply_signal
handle_found out p e sig now none = e
handle_found out p e sig now (some svc) =
    if not (is_passive svc) then e else apply_signal out p e sig now

-- `Handle`: a signal for an unknown service, or for one that is not passive, is dropped.
unfoldable pub handle : Outside → Poller → Engine → AlertSignal → Instant → Engine
unfolding handle_found
handle out p e sig now = handle_found out p e sig now (lookup_service p sig.service_name)
