-- ===== src/Healing.antt =====
-- apps/engine/internal/healing: the self-healing actions and how often they may be tried.
pub mod Tracker
pub mod Fallback
pub mod Healer
pub mod Tests
