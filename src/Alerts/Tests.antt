-- ===== src/Alerts/Tests.antt =====
-- The dispatcher's theorems applied to an outage of one service
-- (apps/engine/internal/alerts/dispatcher.go).
use infrawatch.Prelude.{
  String, ◌≡◌, refl, String, Bool, true, not, ◌&&◌, [], ◌∷◌, none, All, str_eq, arith,
}
use infrawatch.Prelude.Map.{lookup}
use infrawatch.Alerts.Channels.{unique_channels, contains, contains-unique_channels}
use infrawatch.Alerts.Dispatcher.{
  Alert, Dispatcher, is_bad_state, is_recovered_state, select_channels_for_alert,
}
use infrawatch.Alerts.Dispatcher.Invariant.{IsValid, after_alerts, select-IsValid}
use infrawatch.Alerts.Dispatcher.Episode.{notices}
use infrawatch.Alerts.Dispatcher.Notices.{Covers, IsEpisode, recovery_reaches-All}

abbrev alert : String → String → Alert
alert state previous = record {
  service_name = "db";
  state = state;
  previous_state = previous;
  message = "";
  response_time_ms = 0;
  timestamp = 5;
}

abbrev first_alert : Alert
first_alert = alert "DEGRADED" "HEALTHY"

abbrev second_alert : Alert
second_alert = alert "UNHEALTHY" "DEGRADED"

abbrev last_alert : Alert
last_alert = alert "RECOVERING" "UNHEALTHY"

abbrev paging : Bool → Dispatcher
paging escalate = record {
  channels = "email" ∷ "slack" ∷ [];
  state_rules = ("DEGRADED", "slack" ∷ []) ∷ ("UNHEALTHY", "email" ∷ "slack" ∷ []) ∷ [];
  has_history = true;
  escalate = escalate;
  lifecycle = [];
}

paging-IsValid : (escalate : Bool) → IsValid (paging escalate)
unfolding lookup
paging-IsValid escalate name lc e = ground arith

an-IsEpisode :
    (escalate : Bool) → IsEpisode (paging escalate) first_alert (second_alert ∷ []) last_alert
unfolding lookup is_bad_state is_recovered_state
an-IsEpisode escalate = record {
  fresh = refl;
  begins = refl;
  goes_on = ((refl, refl), tt);
  same_service = refl;
  ends = refl;
}

recovery_reaches-All_example :
    let (d', names, ok) =
      select_channels_for_alert
        (after_alerts (paging true) (first_alert ∷ second_alert ∷ []))
        last_alert in
    (ok ≡ true)
    × All (λ cs. Covers cs names) (notices (paging true) (first_alert ∷ second_alert ∷ []))
    × (lookup "db" d'.lifecycle ≡ none)
recovery_reaches-All_example =
    recovery_reaches-All (paging true) first_alert (second_alert ∷ []) last_alert
      (an-IsEpisode true)

recovered_to_healthy : is_recovered_state last_alert.state ≡ true
unfolding is_recovered_state
recovered_to_healthy = refl

select-IsValid_example : IsValid (select_channels_for_alert (paging true) first_alert).0
select-IsValid_example = select-IsValid (paging true) first_alert (paging-IsValid true)

contains-unique_channels_example :
    contains "slack" (unique_channels ("slack" ∷ "" ∷ "email" ∷ "slack" ∷ []))
    ≡ (contains "slack" ("slack" ∷ "" ∷ "email" ∷ "slack" ∷ []) && not (str_eq "slack" ""))
contains-unique_channels_example =
    contains-unique_channels "slack" ("slack" ∷ "" ∷ "email" ∷ "slack" ∷ [])
