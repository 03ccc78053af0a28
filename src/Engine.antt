-- ===== src/Engine.antt =====
-- apps/engine/cmd/main.go: what the engine does with the commands that the API sends over Redis. Each
-- handler is given the decoded command; a payload that does not decode is dropped.
use infrawatch.Prelude.{
  String, Bool, true, false, List, [], ◌∷◌, Option, none, some, str_eq, if◌then◌else◌,
}
use infrawatch.Prelude.Time.{Instant}
use infrawatch.Circuit.Breaker
use infrawatch.Circuit.Registry
use infrawatch.Circuit.Registry.{Registry}
use infrawatch.Config.{ServiceConfig}
use infrawatch.Events.{Event, HealingEvent, CircuitStateEvent, healing, circuit_state}
use infrawatch.Healing.Fallback.{Fallbacks}
use infrawatch.Healing.Healer.{Backends, Healer, heal}
use infrawatch.Health.Poller.{Poller, upsert_service, remove_service, lookup_service}
use infrawatch.Api.ServiceFile.{Command}
pub mod Lookups
pub mod Mirror
pub mod Accepted
pub mod Tests

abbrev remove_named : Poller → String → Poller
remove_named p name = if str_eq name "" then p else remove_service p name

-- The listener for changes of the services.
unfoldable pub apply_command : Poller → Command → Poller
apply_command p cmd =
    if str_eq cmd.action "upsert"
    then upsert_service p cmd.service
    else (if str_eq cmd.action "delete"
        then remove_named p
            (if str_eq cmd.service_name "" then cmd.service.name else cmd.service_name)
        else p)

unfoldable pub apply_commands : Poller → List Command → Poller
apply_commands p [] = p
apply_commands p (cmd ∷ commands) = apply_commands (apply_command p cmd) commands

abbrev circuit_event : Registry × Breaker.Breaker → String → Instant → Registry × List Event
circuit_event (r, b) name now = (
  r,
  circuit_state (record { service_name = name; snapshot = Breaker.snapshot b; timestamp = now })
      ∷ [],
)

-- The listener for resets of a breaker: the registry and what is published.
unfoldable pub reset_circuit : Registry → String → Instant → Registry × List Event
reset_circuit r name now =
    let (r', known) = Registry.reset r name now in
    if known then circuit_event (Registry.get r' name) name now else (r', [])

heal_found :
    Backends
    → Healer
    → Fallbacks
    → Option ServiceConfig
    → Instant
    → Healer × Fallbacks × List String × List Event
heal_found out h m none now = (h, m, [], [])
heal_found out h m (some svc) now =
    let (h', m', posts, result) = heal out h m svc now in
    (
      h',
      m',
      posts,
      healing (record {
        service_name = svc.name;
        action = result.action;
        success = result.success;
        error = result.error;
        timestamp = now;
      })
          ∷ [],
    )

-- The listener for manual healing: the healer, the fallbacks, the URLs posted to and what is published.
unfoldable pub manual_heal :
    Backends
    → Poller
    → Healer
    → Fallbacks
    → String
    → Instant
    → Healer × Fallbacks × List String × List Event
unfolding heal_found
manual_heal out p h m name now = heal_found out h m (lookup_service p name) now
