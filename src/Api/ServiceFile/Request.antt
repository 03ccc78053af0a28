-- ===== src/Api/ServiceFile/Request.antt =====
-- `requestToService` of apps/api/handlers/config_services.go: the service that a request describes.
use infrawatch.Prelude.{String, not, ◌&&◌, Option, none, some, ◌⊎◌, inl, inr, str_eq, if◌then◌else◌}
use infrawatch.Prelude.Int.{ℤ, pos}
use infrawatch.Prelude.Time.{seconds}
use infrawatch.Prelude.Letters.{trim_space, to_lower, to_upper}
use infrawatch.Config.{ServiceConfig, mode_active, mode_passive}
use infrawatch.Config.Defaults.{text_or, number_or}
use infrawatch.Api.ServiceFile.{UpsertRequest, Libraries}

-- A text that is left out, or a duration.
abbrev pub duration_or : (String → ℤ ⊎ String) → ℤ → String → ℤ ⊎ String
duration_or parse value s = if str_eq s "" then inl value else parse s

-- The service of a request, whose mode and durations were read.
abbrev pub service_of : UpsertRequest → String → ℤ → ℤ → ServiceConfig
service_of req mode interval timeout = record {
  name = req.name;
  mode = mode;
  url = req.url;
  interval = interval;
  timeout = timeout;
  method = text_or "GET" (to_upper (trim_space req.method));
  headers = req.headers;
  expect_status = number_or (pos 200) req.expect_status;
  expect_body = req.expect_body;
  tags = req.tags;
  dependencies = req.dependencies;
  container_name = req.container_name;
  namespace = req.namespace;
  deployment = req.deployment;
  healing_actions = req.healing_actions;
  fallback_url = req.fallback_url;
  healing_webhook = req.healing_webhook;
}

abbrev pub mode_of : UpsertRequest → String
mode_of req = text_or mode_active (to_lower (trim_space req.mode))

abbrev url_error : String → String → Option String
url_error mode url =
    if not (str_eq mode mode_passive) && str_eq (trim_space url) ""
    then some "url is required"
    else (if str_eq mode mode_passive && not (str_eq (trim_space url) "")
        then some "url must not be set when mode is 'passive'"
        else none)

-- The checks on a request's texts.
unfoldable pub request_error : UpsertRequest → Option String
request_error req =
    if str_eq (trim_space req.name) ""
    then some "name is required"
    else (if not (str_eq (mode_of req) mode_active) && not (str_eq (mode_of req) mode_passive)
        then some "mode must be 'active' or 'passive'"
        else url_error (mode_of req) req.url)

unfoldable pub with_durations : UpsertRequest → ℤ ⊎ String → ℤ ⊎ String → ServiceConfig ⊎ String
with_durations req (inr e) timeout = inr e
with_durations req (inl interval) (inr e) = inr e
with_durations req (inl interval) (inl timeout) =
    inl (service_of req (mode_of req) interval timeout)

-- `requestToService`.
unfoldable pub request_to_service : Libraries → UpsertRequest → ServiceConfig ⊎ String
request_to_service lib req = elim (request_error req) [
  | some e ↦ inr e
  | none ↦
      with_durations req (duration_or lib.parse_duration (pos (seconds 30)) req.interval)
        (duration_or lib.parse_duration (pos (seconds 5)) req.timeout)
]
