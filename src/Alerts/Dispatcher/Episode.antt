-- ===== src/Alerts/Dispatcher/Episode.antt =====
-- The alerts of one outage: its onset, its escalations and its recovery
-- (apps/engine/internal/alerts/dispatcher.go).
use infrawatch.Prelude.{
  ◌<◌, ◌≡◌, refl, ◌⊎◌, inl, inr, String, true, false, not, ◌||◌, List, [], ◌∷◌, ◌++◌, none, some,
  arith, if◌then◌else◌, All, Bool-cases,
}
use infrawatch.Prelude.Map.{Map, lookup, insert, lookup-delete_self}
use infrawatch.Alerts.Channels.{unique_channels, unique_channels_of_IsSorted}
use infrawatch.Alerts.Dispatcher.{
  Alert, ServiceAlertLifecycle, Dispatcher, is_bad_state, is_recovered_state, severity,
  is_worsening, rules_for, lifecycle_of, select_case, select_channels_for_alert,
}
use infrawatch.Alerts.Dispatcher.Invariant.{IsOutage, recovered_not_bad}

-- The channel lists that a series of alerts goes out to.
unfoldable pub notices : Dispatcher → List Alert → List (List String)
notices d [] = []
notices d (a ∷ more) =
    let (d', names, ok) = select_channels_for_alert d a in
    let rest = notices d' more in if ok then names ∷ rest else rest

-- Alerts of a service about bad states.
abbrev pub AllBad : String → List Alert → Type 0
AllBad name = All (λ (a : Alert). (a.service_name ≡ name) × (is_bad_state a.state ≡ true))

-- A bad alert where no outage is on starts one, and goes to the channels of its state's rule.
pub onset :
    (d : Dispatcher) (a : Alert)
    → lookup a.service_name d.lifecycle ≡ none
    → is_bad_state a.state ≡ true
    → let active = unique_channels (rules_for d a.state) in
      select_channels_for_alert d a ≡ (
        record d {
          lifecycle =
              insert a.service_name
                (record { in_bad_state = true; bad_state = a.state; active_channels = active })
                d.lifecycle;
        },
        active,
        true,
      )
unfolding select_channels_for_alert select_case lifecycle_of
onset d a e b = rw (e, b)

-- A bad alert in an outage is silent, or it is an escalation.
pub during :
    (d : Dispatcher) (a : Alert) (lc : ServiceAlertLifecycle)
    → lookup a.service_name d.lifecycle ≡ some lc
    → IsOutage lc
    → is_bad_state a.state ≡ true
    → (select_channels_for_alert d a ≡ (d, [], false))
      ⊎ ((d.escalate ≡ true)
          × (severity lc.bad_state < severity a.state)
          × (let active = unique_channels (lc.active_channels ++ rules_for d a.state) in
              select_channels_for_alert d a ≡ (
                record d {
                  lifecycle =
                      insert a.service_name
                        (record lc { bad_state = a.state; active_channels = active })
                        d.lifecycle;
                },
                active,
                true,
              )))
unfolding select_channels_for_alert select_case lifecycle_of is_worsening
during d a lc e o b =
    rw (e, b, o.marked)
      (elim (Bool-cases (not d.escalate || not (is_worsening lc.bad_state a.state))) [
        | inl quiet ↦ rw quiet (inl refl)
        | inr loud ↦ rw loud (inr (ground arith, ground arith, refl))
      ])

-- The recovery goes to the channels of the outage, and ends it.
pub recovery :
    (d : Dispatcher) (a : Alert) (lc : ServiceAlertLifecycle)
    → lookup a.service_name d.lifecycle ≡ some lc
    → IsOutage lc
    → is_recovered_state a.state ≡ true
    → (lookup a.service_name (select_channels_for_alert d a).0.lifecycle ≡ none)
      × ((select_channels_for_alert d a).1 ≡ lc.active_channels)
      × ((select_channels_for_alert d a).2 ≡ true)
unfolding select_channels_for_alert select_case lifecycle_of
recovery d a lc e o r =
    rw (e, recovered_not_bad a.state r, r, o.marked)
      (
        lookup-delete_self a.service_name d.lifecycle,
        unique_channels_of_IsSorted lc.active_channels o.normal,
        refl,
      )

-- Whether and where a recovery is announced does not depend on the state rules.
pub recovery_ignores_rules :
    (d : Dispatcher) (a : Alert) (rules : Map (List String))
    → is_recovered_state a.state ≡ true
    → let other = record d { state_rules = rules } in
      ((select_channels_for_alert other a).1 ≡ (select_channels_for_alert d a).1)
      × ((select_channels_for_alert other a).2 ≡ (select_channels_for_alert d a).2)
unfolding select_channels_for_alert select_case lifecycle_of
recovery_ignores_rules d a rules r =
    rw (recovered_not_bad a.state r, r)
      (elim (Bool-cases (lifecycle_of d a.service_name).in_bad_state) [
        | inl e ↦ rw e (refl, refl)
        | inr e ↦ rw e (refl, refl)
      ])
