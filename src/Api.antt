-- ===== src/Api.antt =====
-- apps/api: the REST API's rate limiter and its read model of the engine's events.
pub mod Middleware
pub mod AlertmanagerWebhook
pub mod Metrics
pub mod Tags
pub mod Incidents
pub mod ServiceFile
pub mod RateLimit
pub mod StateStore
pub mod Tests
