-- ===== src/Alerts/Dispatcher.antt =====
-- apps/engine/internal/alerts/dispatcher.go: the dispatcher of alerts. A state is its text. The
-- enabled channels are their names; sending is the parameter `send`, which gives the error of a
-- failed delivery. The goroutines of one `Dispatch` are taken in the order of the channels; they
-- share nothing, so that only the order of the attempts depends on it.
use infrawatch.Prelude.{
  ℕ, String, Bool, true, false, not, ◌&&◌, ◌||◌, List, [], ◌∷◌, ◌++◌, Option, none, some, str_eq,
  if◌then◌else◌, ltb, get_or, is_some,
}
use infrawatch.Prelude.Map.{Map, lookup, insert, delete}
use infrawatch.Prelude.Time.{Instant}
use infrawatch.Config.{AlertsConfig}
use infrawatch.Alerts.Channels.{unique_channels, contains}
pub mod Invariant
pub mod Episode
pub mod Notices
pub mod Quiet

pub record Alert : Type 0 where
  pub service_name : String
  pub state : String
  pub previous_state : String
  pub message : String
  pub response_time_ms : ℕ
  pub timestamp : Instant

pub record AlertDeliveryAttempt : Type 0 where
  pub service_name : String
  pub state : String
  pub previous_state : String
  pub message : String
  pub response_time_ms : ℕ
  pub channel : String
  pub delivered : Bool
  pub error : String
  pub timestamp : Instant

pub record ServiceAlertLifecycle : Type 0 where
  pub in_bad_state : Bool
  pub bad_state : String
  pub active_channels : List String

-- The zero value, which a missing key of the map reads as.
abbrev pub no_lifecycle : ServiceAlertLifecycle
no_lifecycle = record { in_bad_state = false; bad_state = ""; active_channels = [] }

pub record Dispatcher : Type 0 where
  pub channels : List String
  pub state_rules : Map (List String)
  pub has_history : Bool
  pub escalate : Bool
  pub lifecycle : Map ServiceAlertLifecycle

abbrev with_channel : Bool → String → List String → List String
with_channel true name cs = name ∷ cs
with_channel false name cs = cs

-- `NewDispatcher`: the enabled channels. The parameter says whether the e-mail channel can be made;
-- if it is enabled and cannot, there is no dispatcher.
unfoldable pub new_dispatcher : AlertsConfig → Bool → Bool → Option Dispatcher
new_dispatcher cfg email_ok has_history =
    if cfg.email.enabled && not email_ok
    then none
    else some (record {
      channels = with_channel cfg.slack.enabled "slack" (
          with_channel cfg.pager_duty.enabled "pagerduty" (
            with_channel cfg.email.enabled "email"
              (with_channel cfg.webhook.enabled "webhook" [])));
      state_rules = get_or cfg.state_rules [];
      has_history = has_history;
      escalate = cfg.escalate_on_worsening;
      lifecycle = [];
    })

unfoldable pub is_bad_state : String → Bool
is_bad_state s = str_eq s "DEGRADED" || str_eq s "UNHEALTHY" || str_eq s "DEAD"

unfoldable pub is_recovered_state : String → Bool
is_recovered_state s = str_eq s "RECOVERING" || str_eq s "HEALTHY"

unfoldable pub severity : String → ℕ
severity s =
    if str_eq s "DEGRADED"
    then 1
    else (if str_eq s "UNHEALTHY" then 2 else (if str_eq s "DEAD" then 3 else 0))

unfoldable pub is_worsening : String → String → Bool
is_worsening prev_bad next_bad = ltb (severity prev_bad) (severity next_bad)

-- `d.stateRules[state]`.
unfoldable pub rules_for : Dispatcher → String → List String
rules_for d state = get_or (lookup state d.state_rules) []

unfoldable pub lifecycle_of : Dispatcher → String → ServiceAlertLifecycle
lifecycle_of d name = get_or (lookup name d.lifecycle) no_lifecycle

-- The cases of `selectChannelsForAlert`, by whether the alert's state is bad, whether it is a
-- recovered one, and whether the service is in a bad state.
select_case :
    Bool
    → Bool
    → Bool
    → Dispatcher
    → Alert
    → ServiceAlertLifecycle
    → Dispatcher × List String × Bool
select_case true recovered false d a lc =
    let active = unique_channels (rules_for d a.state) in
    (
      record d {
        lifecycle =
            insert a.service_name
              (record lc { in_bad_state = true; bad_state = a.state; active_channels = active })
              d.lifecycle;
      },
      active,
      true,
    )
select_case true recovered true d a lc =
    if not d.escalate || not (is_worsening lc.bad_state a.state)
    then (d, [], false)
    else (let active = unique_channels (lc.active_channels ++ rules_for d a.state) in
        (
          record d {
            lifecycle =
                insert a.service_name (record lc { bad_state = a.state; active_channels = active })
                  d.lifecycle;
          },
          active,
          true,
        ))
select_case false true true d a lc = (
  record d { lifecycle = delete a.service_name d.lifecycle },
  unique_channels lc.active_channels,
  true,
)
select_case false true false d a lc = (d, [], false)
select_case false false in_bad d a lc =
    (d, unique_channels (rules_for d a.state), is_some (lookup a.state d.state_rules))

unfoldable pub select_channels_for_alert : Dispatcher → Alert → Dispatcher × List String × Bool
unfolding select_case
select_channels_for_alert d a =
    let lc = lifecycle_of d a.service_name in
    select_case (is_bad_state a.state) (is_recovered_state a.state) lc.in_bad_state d a lc

unfoldable pub err_string : Option String → String
err_string none = ""
err_string (some e) = e

attempt : Alert → String → Option String → AlertDeliveryAttempt
attempt a channel err = record {
  service_name = a.service_name;
  state = a.state;
  previous_state = a.previous_state;
  message = a.message;
  response_time_ms = a.response_time_ms;
  channel = channel;
  delivered = not (is_some err);
  error = err_string err;
  timestamp = a.timestamp;
}

-- What the goroutines of the enabled channels send; a channel that is not enabled is skipped.
send_all :
    (String → Alert → Option String) → List String → Alert → List String → List AlertDeliveryAttempt
send_all send enabled a [] = []
send_all send enabled a (name ∷ names) =
    let rest = send_all send enabled a names in
    if contains name enabled then attempt a name (send name a) ∷ rest else rest

-- `recordAttempt`, for each attempt: what is written to the history.
unfoldable pub record_attempts : Dispatcher → List AlertDeliveryAttempt → List AlertDeliveryAttempt
record_attempts d attempts = if d.has_history then attempts else []

-- `Dispatch`: the dispatcher afterwards, and the deliveries that are attempted.
unfoldable pub dispatch :
    (String → Alert → Option String) → Dispatcher → Alert → Dispatcher × List AlertDeliveryAttempt
unfolding send_all attempt
dispatch send d a =
    let (d', names, ok) = select_channels_for_alert d a in
    (d', if ok then send_all send d.channels a names else [])
