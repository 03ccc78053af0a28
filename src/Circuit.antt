-- ===== src/Circuit.antt =====
-- apps/engine/internal/circuit: the circuit breakers, one for each service.
pub mod Breaker
pub mod Registry
pub mod Tests
