-- ===== src/Api/AlertmanagerWebhook/Tests.antt =====
-- Alerts for the theorem on the webhook of apps/api/handlers/alertmanager_webhook.go.
use infrawatch.Prelude.{◌≡◌, ◌≢◌, ◌⊎◌, inl, String, List, [], ◌∷◌, Option, none, some, length}
use infrawatch.Config.{ServiceConfig}
use infrawatch.Config.Samples.{service}
use infrawatch.Api.AlertmanagerWebhook.{AlertmanagerAlert, ExternalAlertSignal, no_outcome, receive}
use infrawatch.Api.AlertmanagerWebhook.Accepted.{IsCounted, receive-IsCounted}

abbrev secret : String
secret = "s3cret"

abbrev redis : ExternalAlertSignal → Option String
redis sig = none

abbrev services : List ServiceConfig
services = record (service "db" "passive" [] []) { url = "" } ∷ service "cache" "" [] [] ∷ []

abbrev alert : String → AlertmanagerAlert
alert name = record {
  status = "firing";
  labels = ("infrawatch_service", name) ∷ [];
  annotations = ("summary", "disk full") ∷ [];
}

abbrev alerts : List AlertmanagerAlert
alerts = alert "db" ∷ alert "cache" ∷ alert "unknown" ∷ []

receive-IsCounted_example :
    (((secret ≡ secret) × (◌≢◌ {A = String} secret ""))
      × ((receive redis 1 secret secret (some alerts) (inl services)).0 ≡ 202)
      × IsCounted services
          (length alerts)
          (receive redis 1 secret secret (some alerts) (inl services)).1)
    ⊎ (((secret ≡ "") ⊎ (◌≢◌ {A = String} secret secret))
        × ((receive redis 1 secret secret (some alerts) (inl services)).1 ≡ no_outcome))
receive-IsCounted_example = receive-IsCounted redis 1 secret secret alerts services
