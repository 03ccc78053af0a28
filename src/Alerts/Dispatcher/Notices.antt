-- ===== src/Alerts/Dispatcher/Notices.antt =====
-- Who hears of an outage, and how often (apps/engine/internal/alerts/dispatcher.go).
use infrawatch.Prelude.{
  ◌+◌, ◌≤◌, ◌≡◌, refl, subst, sym, inl, inr, ap, String, Bool, true, false, List, [], ◌∷◌, ◌++◌,
  none, some, arith, str_eq, if◌then◌else◌, All, length,
}
use infrawatch.Prelude.Map.{lookup, insert, lookup-insert_self}
use infrawatch.Alerts.Channels.{
  unique_channels, contains, IsSorted, unique_channels-IsSorted, unique_channels_of_IsSorted,
  contains-unique_channels, contains-append,
}
use infrawatch.Alerts.Dispatcher.{
  Alert, ServiceAlertLifecycle, Dispatcher, is_bad_state, is_recovered_state, severity, rules_for,
  select_channels_for_alert,
}
use infrawatch.Alerts.Dispatcher.Invariant.{IsOutage, after_alerts}
use infrawatch.Alerts.Dispatcher.Episode.{notices, AllBad, onset, during, recovery}

-- Every channel of the one list is in the other.
abbrev pub Covers : List String → List String → Type 0
Covers cs ds = (c : String) → contains c cs ≡ true → contains c ds ≡ true

-- What an escalation makes of the record of an outage.
abbrev escalated : Dispatcher → Alert → ServiceAlertLifecycle → ServiceAlertLifecycle
escalated d a lc = record lc {
  bad_state = a.state;
  active_channels = unique_channels (lc.active_channels ++ rules_for d a.state);
}

escalated-IsOutage :
    (d : Dispatcher) (a : Alert) (lc : ServiceAlertLifecycle)
    → IsOutage lc
    → is_bad_state a.state ≡ true
    → IsOutage (escalated d a lc)
escalated-IsOutage d a lc o b = record {
  marked = o.marked;
  bad = b;
  normal = unique_channels-IsSorted (lc.active_channels ++ rules_for d a.state);
}

contains_not_empty :
    (c : String) (xs : List String) → IsSorted xs → contains c xs ≡ true → str_eq c "" ≡ false
contains_not_empty c xs s h =
    ground
      (arith, contains-unique_channels c xs, ap (contains c) (unique_channels_of_IsSorted xs s))

escalated-Covers :
    (d : Dispatcher) (a : Alert) (lc : ServiceAlertLifecycle)
    → IsOutage lc
    → Covers lc.active_channels (escalated d a lc).active_channels
escalated-Covers d a lc o c h = ground (
  arith,
  contains-unique_channels c (lc.active_channels ++ rules_for d a.state),
  contains-append c lc.active_channels (rules_for d a.state),
  contains_not_empty c lc.active_channels o.normal h,
)

module _ (name : String) where
  -- What is kept of an outage, and who heard of it, when `d` has passed on the alerts `more` after
  -- the channel lists `heard`.
  abbrev Outcome : ServiceAlertLifecycle → List (List String) → Dispatcher → Type 0
  Outcome lc heard d =
      (lc' : ServiceAlertLifecycle) × (lookup name d.lifecycle ≡ some lc')
      × IsOutage lc'
      × Covers lc.active_channels lc'.active_channels
      × All (λ cs. Covers cs lc'.active_channels) heard
      × (length heard + severity lc.bad_state ≤ severity lc'.bad_state)

  -- The same one alert earlier, by what that alert's selection gives.
  abbrev After : ServiceAlertLifecycle → List Alert → Dispatcher × List String × Bool → Type 0
  After lc more (d, names, ok) =
      Outcome lc (if ok then names ∷ notices d more else notices d more) (after_alerts d more)

  continues :
      (d : Dispatcher) (lc : ServiceAlertLifecycle) (more : List Alert)
      → lookup name d.lifecycle ≡ some lc
      → IsOutage lc
      → AllBad name more
      → Outcome lc (notices d more) (after_alerts d more)
  unfolding after_alerts notices
  continues d lc [] e o all = (lc, e, o, λ c h. h, tt, omega arith)
  continues d lc (a ∷ more) e o all =
      let at_name : lookup a.service_name d.lifecycle ≡ some lc = rw all.0.0 e in
      elim (during d a lc at_name o all.0.1) [
        | inl silent ↦ subst (After lc more) (sym silent) (continues d lc more e o all.1)
        | inr (flag, worse, loud) ↦
            let lc₁ = escalated d a lc in
            let d₁ = record d { lifecycle = insert a.service_name lc₁ d.lifecycle } in
            let found : lookup name d₁.lifecycle ≡ some lc₁ =
              subst (λ n. lookup n d₁.lifecycle ≡ some lc₁) all.0.0
                (lookup-insert_self a.service_name lc₁ d.lifecycle) in
            let (lc', l, o', cov, heard, count) =
              continues d₁ lc₁ more found (escalated-IsOutage d a lc o all.0.1) all.1 in
            subst (After lc more) (sym loud) (
              lc',
              l,
              o',
              λ c h. cov c (escalated-Covers d a lc o c h),
              (cov, heard),
              omega (arith, count),
            )
      ]

-- An outage, of a service that was in none: it begins with the alert `a`, goes on with the alerts
-- `more`, all about bad states of that service, and ends with the alert `r` about a recovery.
pub record IsEpisode (d : Dispatcher) (a : Alert) (more : List Alert) (r : Alert) : Type 0 where
  pub fresh : lookup a.service_name d.lifecycle ≡ none
  pub begins : is_bad_state a.state ≡ true
  pub goes_on : AllBad a.service_name more
  pub same_service : r.service_name ≡ a.service_name
  pub ends : is_recovered_state r.state ≡ true

-- The record with which an outage begins.
abbrev pub opened_by : Dispatcher → Alert → ServiceAlertLifecycle
opened_by d a = record {
  in_bad_state = true;
  bad_state = a.state;
  active_channels = unique_channels (rules_for d a.state);
}

-- The dispatcher once the outage has begun.
abbrev pub begun : Dispatcher → Alert → Dispatcher
begun d a = record d { lifecycle = insert a.service_name (opened_by d a) d.lifecycle }

pub opened_by-IsOutage :
    (d : Dispatcher) (a : Alert) → is_bad_state a.state ≡ true → IsOutage (opened_by d a)
opened_by-IsOutage d a b = record {
  marked = refl;
  bad = b;
  normal = unique_channels-IsSorted (rules_for d a.state);
}

module _ (d : Dispatcher) (a : Alert) (more : List Alert) (r : Alert)
    (ep : IsEpisode d a more r) where
  pub notices_begin :
      notices d (a ∷ more) ≡ unique_channels (rules_for d a.state) ∷ notices (begun d a) more
  unfolding notices
  notices_begin =
      ap
        (λ (x : Dispatcher × List String × Bool).
          if x.2 then x.1 ∷ notices x.0 more else notices x.0 more)
        (onset d a ep.fresh ep.begins)

  pub after_begin : after_alerts d (a ∷ more) ≡ after_alerts (begun d a) more
  unfolding after_alerts
  after_begin =
      ap (λ (x : Dispatcher × List String × Bool). after_alerts x.0 more)
        (onset d a ep.fresh ep.begins)

  -- The state of the outage before its recovery.
  outcome :
      Outcome a.service_name
        (opened_by d a)
        (notices (begun d a) more)
        (after_alerts (begun d a) more)
  outcome =
      continues a.service_name (begun d a) (opened_by d a) more
        (lookup-insert_self a.service_name (opened_by d a) d.lifecycle)
        (opened_by-IsOutage d a ep.begins) ep.goes_on

  recovered :
      let (d', names, ok) = select_channels_for_alert (after_alerts (begun d a) more) r in
      (lookup r.service_name d'.lifecycle ≡ none)
      × (names ≡ outcome.0.active_channels)
      × (ok ≡ true)
  recovered =
      let (lc', l, o', cov, heard, count) = outcome in
      recovery (after_alerts (begun d a) more) r lc'
        (subst (λ n. lookup n (after_alerts (begun d a) more).lifecycle ≡ some lc')
          (sym ep.same_service) l)
        o' ep.ends

-- The end of an outage, after the notices `heard`.
abbrev Ends : String → List (List String) → Dispatcher × List String × Bool → Type 0
Ends name heard (d', names, ok) =
    (ok ≡ true) × All (λ cs. Covers cs names) heard × (lookup name d'.lifecycle ≡ none)

-- Every channel that was notified during an outage is notified of the recovery, which then leaves
-- no trace of the outage.
pub recovery_reaches-All :
    (d : Dispatcher) (a : Alert) (more : List Alert) (r : Alert)
    → IsEpisode d a more r
    → let (d', names, ok) = select_channels_for_alert (after_alerts d (a ∷ more)) r in
      (ok ≡ true)
      × All (λ cs. Covers cs names) (notices d (a ∷ more))
      × (lookup a.service_name d'.lifecycle ≡ none)
recovery_reaches-All d a more r ep =
    let (lc', l, o', cov, heard, count) = outcome d a more r ep in
    let (gone, same, done) = recovered d a more r ep in
    let name = a.service_name in
    let ended : Ends name (notices d (a ∷ more))
        (select_channels_for_alert (after_alerts (begun d a) more) r) =
      (
        done,
        rw (notices_begin d a more r ep) (
            subst
              (λ ns.
                All (λ cs. Covers cs ns)
                  (unique_channels (rules_for d a.state) ∷ notices (begun d a) more))
              (sym same) (cov, heard)),
        subst
            (λ n.
              lookup n (select_channels_for_alert (after_alerts (begun d a) more) r).0.lifecycle
              ≡ none)
            ep.same_service gone,
      ) in
    subst (λ x. Ends name (notices d (a ∷ more)) (select_channels_for_alert x r))
      (sym (after_begin d a more r ep)) ended
