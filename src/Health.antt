-- ===== src/Health.antt =====
-- apps/engine/internal/health: the health state machine of a service, the check of one over HTTP,
-- the manager of the services' states, the polls, and the signals of an external alert system.
pub mod Fsm
pub mod Checker
pub mod Manager
pub mod Poller
pub mod AlertSignal
pub mod Run
pub mod Tests
