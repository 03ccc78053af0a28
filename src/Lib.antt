-- ===== src/Lib.antt =====
-- Verification of Infrawatch: the engine (apps/engine), which polls services, keeps the state of
-- each, alerts and heals, and parts of the REST API (apps/api).
--
-- How the program's parts work together. The poller runs one loop per service. A cycle asks the
-- service's circuit breaker whether to check at all, makes the HTTP check (or reads the alert floor
-- that an external alert system set for a passive service), looks at the declared dependencies, and
-- hands the result to the state manager. That moves the service's state machine, writes the metric
-- and, on a change of state, the incident to the database, publishes events, dispatches the alert,
-- starts a healing attempt when the service is DEAD and clears its fallback when it is HEALTHY. The
-- anomaly detector sees the response times. The API builds its read model and its incidents from the
-- published events, changes the services in the configuration file and tells the engine by a
-- command, and passes on the signals of an external alert system.
--
-- Which file models which part:
--   Prelude         shared names: Boolean tests, lists and maps over native numbers, integers, time
--   Config, Config/Defaults  the configuration and its defaults (apps/engine/config/config.go)
--   Config/Names, Config/Validator  its validation (apps/engine/config/validator.go)
--   Engine          the listeners for commands of the API (apps/engine/cmd/main.go); its children
--                   compose them with the API's configuration file and with the validation
--   Anomaly         the latency detector (apps/engine/internal/anomaly)
--   Health/Fsm      the state machine (apps/engine/internal/health/state.go)
--   Health/Checker  the HTTP check (apps/engine/internal/health/checker.go)
--   Health/Manager  `Record` and what it drives (apps/engine/internal/health/state_manager.go)
--   Health/Poller   loops and polls (apps/engine/internal/health/poller.go)
--   Health/AlertSignal  signals for passive services (apps/engine/internal/health/alertsignal.go)
--   Health/Run      the running engine: polls, signals, healing attempts and statements of writes in any order
--   Circuit/Breaker, Circuit/Registry  (apps/engine/internal/circuit)
--   Events          the published events (apps/engine/internal/events/bus.go)
--   Alerts/Channels, Alerts/Dispatcher  (apps/engine/internal/alerts/dispatcher.go)
--   Healing/Tracker, Healing/Healer  (apps/engine/internal/healing/healer.go)
--   Healing/Fallback  (apps/engine/internal/healing/fallback.go)
--   Storage         the engine's writes and the incidents (apps/engine/internal/storage/db.go)
--   Api/RateLimit   (apps/api/middleware/ratelimit.go)
--   Api/Middleware  authentication and CORS (apps/api/middleware/auth.go, cors.go)
--   Api/StateStore  the read model (apps/api/store/state_store.go)
--   Api/ServiceFile  the services of the configuration file: requests, the file, the handlers
--                   (apps/api/handlers/config_services.go)
--   Api/Incidents   the computed incidents and their handlers (apps/api/handlers/incidents.go)
--   Api/Metrics     summaries of metrics (apps/api/handlers/metrics.go)
--   Api/AlertmanagerWebhook  (apps/api/handlers/alertmanager_webhook.go)
--   Api/Tags        tags by service (apps/api/handlers/services.go)
-- A struct is a record with the source's field names, a method a function of the same name in snake
-- case that takes the state and returns the new one; a module's children hold what is proved of it,
-- and the modules called Tests hold concrete runs.
--
-- Decisions. A mutex makes a method one step, so that an interleaving of goroutines is a sequence of
-- steps. A whole poll is one step of Health/Run: polls of different services share only maps that
-- are locked, but two polls of one service (a tick and a signal) that overlap in time are taken one
-- after the other. A step reads the clock once and gets the reading as its argument `now`, in nanoseconds of
-- the monotonic clock. Where the source starts a goroutine for a healing
-- attempt, the attempt is queued (`pending`, `run_healing`); a goroutine that writes a change of state is queued too (`writes`), and `run_write`
-- runs one statement of any of them, so that they may overtake and interleave. A metric, a row of the alert history and a delivery, which
-- are independent of each other, take effect where they are started. Go maps are association lists. Counters are
-- unbounded numbers; settings are signed integers; the uptime is the exact fraction. The healing
-- errors are data where the source has texts.
--
-- What is outside is a parameter: HTTP (`Http`), the alert channels (`send`), Docker, kubectl and
-- webhooks (`Backends`), which SQL statements fail (`Faults`), Go's `%q` (`quote`), YAML, URLs and
-- durations (`Libraries`), the file system and Redis under a request (`Weather`), the database and
-- the stream under a request for incidents (`Sources`), JSON (a body that does not decode is none).
-- Where it is needed that a file that was written is read as what was written, that is a hypothesis,
-- `RoundTrips`; state rules that are missing are the exception that YAML makes, as they are written as an empty map. The API reads
-- the file as it stands, the engine with its environment variables expanded (Config/Load).
--
-- Bounds and fuel. Every loop is a recursion on the list that it walks. The only fuel is that of the
-- decimal numerals of Prelude/Decimal, one more than the number, which has at most that many digits.
-- The percentile's index is computed with whole numbers, which agrees with the floating point of the
-- source for up to 20000 samples. The history of a service holds 500 transitions and a ring of the read model 2000 points, as in the
-- source, and the ring of response times 1000.
--
-- Not modelled: the wiring of the two programs; of the API the grouping by tags, the export as Markdown, the handlers that
-- only pass something on, the queries of the database reader and the WebSocket
-- hub; the alert channels themselves, Docker and kubectl, the Redis client, the schema statements,
-- and the dashboard: input and output, glue, or left for later.
pub mod Prelude
pub mod Health
pub mod Config
pub mod Circuit
pub mod Events
pub mod Alerts
pub mod Api
pub mod Healing
pub mod Storage
pub mod Anomaly
pub mod Engine
