-- ===== src/Alerts.antt =====
-- apps/engine/internal/alerts: which channels hear of which change of a service's health.
pub mod Channels
pub mod Dispatcher
pub mod Tests
