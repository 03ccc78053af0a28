-- ===== src/Alerts/Dispatcher/Invariant.antt =====
-- What holds of the dispatcher between two alerts (apps/engine/internal/alerts/dispatcher.go).
use infrawatch.Prelude.{
  ◌≤◌, ◌≡◌, refl, subst, ◌≢◌, ◌⊎◌, inl, inr, String, Bool, true, false, not, ◌||◌, List, [], ◌∷◌,
  ◌++◌, some, arith, str_eq, eq_iff, Bool-cases,
}
use infrawatch.Prelude.Map.{
  Map, lookup, insert, delete, lookup-insert, lookup-delete, lookup-insert_ne, lookup-delete_ne,
}
use infrawatch.Alerts.Channels.{IsSorted, unique_channels-IsSorted}
use infrawatch.Alerts.Dispatcher.{
  Alert, ServiceAlertLifecycle, Dispatcher, is_bad_state, is_recovered_state, severity,
  is_worsening, rules_for, lifecycle_of, select_case, select_channels_for_alert,
}

-- What the dispatcher keeps of a service in a bad state: the state is a bad one, and the channels
-- are sorted and each there once.
pub record IsOutage (lc : ServiceAlertLifecycle) : Type 0 where
  pub marked : lc.in_bad_state ≡ true
  pub bad : is_bad_state lc.bad_state ≡ true
  pub normal : IsSorted lc.active_channels

-- Nothing is kept of a service that is not in a bad state.
abbrev Outages : Map ServiceAlertLifecycle → Type 0
Outages m = (name : String) (lc : ServiceAlertLifecycle) → lookup name m ≡ some lc → IsOutage lc

abbrev pub IsValid : Dispatcher → Type 0
IsValid d = Outages d.lifecycle

bad_cases :
    (s : String) → is_bad_state s ≡ true → (s ≡ "DEGRADED") ⊎ (s ≡ "UNHEALTHY") ⊎ (s ≡ "DEAD")
unfolding is_bad_state
bad_cases s h = ground (arith, eq_iff s "DEGRADED", eq_iff s "UNHEALTHY", eq_iff s "DEAD")

not_both : (s : String) → is_recovered_state s ≡ true → is_bad_state s ≡ true → ⊥
unfolding is_bad_state is_recovered_state
not_both s r b = elim (bad_cases s b) [
  | inl e ↦ let no : false ≡ true = rw e at r in cc
  | inr (inl e) ↦ let no : false ≡ true = rw e at r in cc
  | inr (inr e) ↦ let no : false ≡ true = rw e at r in cc
]

pub recovered_not_bad : (s : String) → is_recovered_state s ≡ true → is_bad_state s ≡ false
recovered_not_bad s r = elim (Bool-cases (is_bad_state s)) [
  | inl b ↦ absurd (not_both s r b)
  | inr b ↦ b
]

pub severity_bounds : (s : String) → is_bad_state s ≡ true → (1 ≤ severity s) × (severity s ≤ 3)
unfolding is_bad_state severity
severity_bounds s h = ground arith

Outages-insert :
    (m : Map ServiceAlertLifecycle) (k : String) (x : ServiceAlertLifecycle)
    → Outages m
    → IsOutage x
    → Outages (insert k x m)
Outages-insert m k x v o name lc e = elim (Bool-cases (str_eq k name)) [
  | inl hit ↦ let same : x ≡ lc = ground (arith, lookup-insert name k x m) in subst IsOutage same o
  | inr miss ↦ v name lc (ground (arith, lookup-insert name k x m))
]

Outages-delete : (m : Map ServiceAlertLifecycle) (k : String) → Outages m → Outages (delete k m)
Outages-delete m k v name lc e = v name lc (ground (arith, lookup-delete name k m))

select_case-IsValid :
    (bad recovered in_bad : Bool) (d : Dispatcher) (a : Alert) (lc : ServiceAlertLifecycle)
    → is_bad_state a.state ≡ bad
    → lc.in_bad_state ≡ in_bad
    → IsValid d
    → IsValid (select_case bad recovered in_bad d a lc).0
unfolding select_case
select_case-IsValid true recovered false d a lc b i v =
    Outages-insert d.lifecycle a.service_name _ v
      (record { marked = refl; bad = b; normal = unique_channels-IsSorted (rules_for d a.state) })
select_case-IsValid true recovered true d a lc b i v =
    elim (Bool-cases (not d.escalate || not (is_worsening lc.bad_state a.state))) [
      | inl quiet ↦ rw quiet v
      | inr loud ↦ rw loud (
          Outages-insert d.lifecycle a.service_name _ v (record {
            marked = i;
            bad = b;
            normal = unique_channels-IsSorted (lc.active_channels ++ rules_for d a.state);
          }))
    ]
select_case-IsValid false true true d a lc b i v = Outages-delete d.lifecycle a.service_name v
select_case-IsValid false true false d a lc b i v = v
select_case-IsValid false false in_bad d a lc b i v = v

-- Every alert keeps the dispatcher's records valid.
pub select-IsValid :
    (d : Dispatcher) (a : Alert) → IsValid d → IsValid (select_channels_for_alert d a).0
unfolding select_channels_for_alert
select-IsValid d a v =
    select_case-IsValid (is_bad_state a.state) (is_recovered_state a.state) _ d a
      (lifecycle_of d a.service_name) refl refl v

-- The dispatcher after a series of alerts.
unfoldable pub after_alerts : Dispatcher → List Alert → Dispatcher
after_alerts d [] = d
after_alerts d (a ∷ more) = after_alerts (select_channels_for_alert d a).0 more

pub after_alerts-IsValid :
    (d : Dispatcher) (more : List Alert) → IsValid d → IsValid (after_alerts d more)
unfolding after_alerts
after_alerts-IsValid d [] v = v
after_alerts-IsValid d (a ∷ more) v =
    after_alerts-IsValid (select_channels_for_alert d a).0 more (select-IsValid d a v)

select_case_other :
    (bad recovered in_bad : Bool) (d : Dispatcher) (a : Alert) (lc : ServiceAlertLifecycle)
    (name : String)
    → a.service_name ≢ name
    → lookup name (select_case bad recovered in_bad d a lc).0.lifecycle ≡ lookup name d.lifecycle
unfolding select_case
select_case_other true recovered false d a lc name h =
    lookup-insert_ne name a.service_name _ d.lifecycle h
select_case_other true recovered true d a lc name h =
    elim (Bool-cases (not d.escalate || not (is_worsening lc.bad_state a.state))) [
      | inl quiet ↦ rw quiet
      | inr loud ↦ rw loud (lookup-insert_ne name a.service_name _ d.lifecycle h)
    ]
select_case_other false true true d a lc name h = lookup-delete_ne name a.service_name d.lifecycle h
select_case_other false true false d a lc name h = refl
select_case_other false false in_bad d a lc name h = refl

-- An alert changes what is kept of its own service only.
pub select_other :
    (d : Dispatcher) (a : Alert) (name : String)
    → a.service_name ≢ name
    → lookup name (select_channels_for_alert d a).0.lifecycle ≡ lookup name d.lifecycle
unfolding select_channels_for_alert
select_other d a name h =
    select_case_other (is_bad_state a.state) (is_recovered_state a.state) _ d a
      (lifecycle_of d a.service_name) name h
