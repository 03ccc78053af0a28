-- ===== src/Alerts/Dispatcher/Quiet.antt =====
-- An outage where alerts do not escalate (apps/engine/internal/alerts/dispatcher.go).
use infrawatch.Alerts.Dispatcher.{Dispatcher}
