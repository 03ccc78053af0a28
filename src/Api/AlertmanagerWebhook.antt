-- ===== src/Api/AlertmanagerWebhook.antt =====
-- apps/api/handlers/alertmanager_webhook.go: alerts of Alertmanager become signals for the engine.
-- The decoded body, the configured services and whether Redis takes a signal are given.
use infrawatch.Prelude.{
  ℕ, String, Bool, true, false, not, List, [], ◌∷◌, ◌++◌, Option, none, some, ◌⊎◌, inl, inr, str_eq,
  get_or, if◌then◌else◌,
}
use infrawatch.Prelude.Map.{Map, lookup}
use infrawatch.Prelude.Time.{Instant}
use infrawatch.Config.{ServiceConfig, is_passive}
use infrawatch.Health.Poller.{find_service}
pub mod Accepted
pub mod Tests

pub record AlertmanagerAlert : Type 0 where
  pub status : String
  pub labels : Map String
  pub annotations : Map String

abbrev pub service_label : String
service_label = "infrawatch_service"

pub record ExternalAlertSignal : Type 0 where
  pub service_name : String
  pub status : String
  pub reason : String
  pub timestamp : Instant

pub data Skipped : Type 0 where
  missing_label : Skipped
  unknown_service not_passive : String → Skipped
  not_published : String → String → Skipped

-- What became of the alerts so far.
pub record Outcome : Type 0 where
  pub accepted : List String
  pub skipped : List Skipped
  pub published : List ExternalAlertSignal

abbrev skip : Outcome → Skipped → Outcome
skip o s = record o { skipped = o.skipped ++ s ∷ [] }

-- `m[key]`, the empty text if there is none.
abbrev text_at : String → Map String → String
text_at key m = get_or (lookup key m) ""

abbrev pub reason_of : AlertmanagerAlert → String
reason_of alert =
    if str_eq (text_at "summary" alert.annotations) ""
    then text_at "description" alert.annotations
    else text_at "summary" alert.annotations

abbrev pub signal_of : AlertmanagerAlert → String → Instant → ExternalAlertSignal
signal_of alert name now = record {
  service_name = name;
  status = alert.status;
  reason = reason_of alert;
  timestamp = now;
}

-- The call of Redis, which answers with an error or takes the signal.
unfoldable pub publish_signal :
    (ExternalAlertSignal → Option String) → ExternalAlertSignal → Outcome → Outcome
publish_signal redis sig o = elim (redis sig) [
  | some e ↦ skip o (not_published sig.service_name e)
  | none ↦ record o {
    accepted = o.accepted ++ sig.service_name ∷ [];
    published = o.published ++ sig ∷ [];
  }
]

-- `serviceIndex` and the service at that index: the first service of the name.
unfoldable pub receive_found :
    (ExternalAlertSignal → Option String)
    → AlertmanagerAlert
    → String
    → Instant
    → Option ServiceConfig
    → Outcome
    → Outcome
receive_found redis alert name now none o = skip o (unknown_service name)
receive_found redis alert name now (some svc) o =
    if not (is_passive svc)
    then skip o (not_passive name)
    else publish_signal redis (signal_of alert name now) o

-- The body of the loop.
unfoldable pub receive_alert :
    (ExternalAlertSignal → Option String)
    → List ServiceConfig
    → Instant
    → AlertmanagerAlert
    → Outcome
    → Outcome
receive_alert redis services now alert o =
    let name = text_at service_label alert.labels in
    if str_eq name ""
    then skip o missing_label
    else receive_found redis alert name now (find_service name services) o

unfoldable pub receive_alerts :
    (ExternalAlertSignal → Option String)
    → List ServiceConfig
    → Instant
    → List AlertmanagerAlert
    → Outcome
    → Outcome
receive_alerts redis services now [] o = o
receive_alerts redis services now (alert ∷ alerts) o =
    receive_alerts redis services now alerts (receive_alert redis services now alert o)

abbrev pub no_outcome : Outcome
no_outcome = record { accepted = []; skipped = []; published = [] }

receive_loaded :
    (ExternalAlertSignal → Option String)
    → Instant
    → List AlertmanagerAlert
    → List ServiceConfig ⊎ String
    → ℕ × Outcome
receive_loaded redis now alerts (inr e) = (500, no_outcome)
receive_loaded redis now alerts (inl services) =
    (202, receive_alerts redis services now alerts no_outcome)

receive_body :
    (ExternalAlertSignal → Option String)
    → Instant
    → Option (List AlertmanagerAlert)
    → List ServiceConfig ⊎ String
    → ℕ × Outcome
unfolding receive_loaded
receive_body redis now none loaded = (400, no_outcome)
receive_body redis now (some alerts) loaded = receive_loaded redis now alerts loaded

-- `Receive`: the secret of the configuration, the one of the request, its body and the configuration
-- file; the status, and what became of the alerts.
unfoldable pub receive :
    (ExternalAlertSignal → Option String)
    → Instant
    → String
    → String
    → Option (List AlertmanagerAlert)
    → List ServiceConfig ⊎ String
    → ℕ × Outcome
unfolding receive_body
receive redis now secret given body loaded =
    if str_eq secret ""
    then (503, no_outcome)
    else (if not (str_eq given secret)
        then (401, no_outcome)
        else receive_body redis now body loaded)
