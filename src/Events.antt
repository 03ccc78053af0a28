-- ===== src/Events.antt =====
-- apps/engine/internal/events/bus.go: the events that the engine publishes. Redis carries them; here
-- a published event is appended to a list, in the order of the calls. The snapshot of a change of
-- state is typed, where the source has an `interface{}`.
use infrawatch.Prelude.{ℕ, String, Bool, List, [], ◌∷◌, ◌++◌, Option}
use infrawatch.Prelude.Time.{Instant}
use infrawatch.Circuit.Breaker.{BreakerSnapshot}
use infrawatch.Health.Fsm.{ServiceStateSnapshot}
use infrawatch.Healing.Fallback.{HealError}

pub record MetricEvent : Type 0 where
  pub service_name : String
  pub timestamp : Instant
  pub ok : Bool
  pub response_time_ms : ℕ
  pub status_code : ℕ
  pub state : String

pub record StateChangeEvent : Type 0 where
  pub service_name : String
  pub previous_state : String
  pub new_state : String
  pub reason : String
  pub timestamp : Instant
  pub snapshot : ServiceStateSnapshot

pub record HealingEvent : Type 0 where
  pub service_name : String
  pub action : String
  pub success : Bool
  pub error : Option HealError
  pub timestamp : Instant

pub record CircuitStateEvent : Type 0 where
  pub service_name : String
  pub snapshot : BreakerSnapshot
  pub timestamp : Instant

-- One constructor for each stream that the engine publishes to.
pub data Event : Type 0 where
  metric : MetricEvent → Event
  state_change : StateChangeEvent → Event
  healing : HealingEvent → Event
  circuit_state : CircuitStateEvent → Event

unfoldable pub publish : List Event → Event → List Event
publish events e = events ++ e ∷ []
