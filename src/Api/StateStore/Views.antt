-- ===== src/Api/StateStore/Views.antt =====
-- The state that the read model shows (apps/api/store/state_store.go).
use infrawatch.Prelude.{
  ◌≡◌, refl, String, Option, none, some, str_eq, arith, eq_iff, if◌then◌else◌, Option-cases, inl,
  inr,
}
use infrawatch.Prelude.Map.{lookup, lookup-insert}
use infrawatch.Api.StateStore.{
  StateStore, ServiceView, ViewSnapshot, StoreEvent, state_changed, polled, circuit_changed, apply,
  apply_state_change, apply_metric, update_circuit, get_service, rehydrate, metric_view,
  circuit_view,
}

abbrev state_in : Option ServiceView → Option String
state_in none = none
state_in (some v) = some v.state

-- The state that is shown of a service; none if the service is unknown.
abbrev pub shown : StateStore → String → Option String
shown s name = state_in (get_service s name)

abbrev pub service_of : StoreEvent → String
service_of (state_changed evt) = evt.service_name
service_of (polled evt) = evt.service_name
service_of (circuit_changed evt) = evt.service_name

-- The state that an event shows of its service: a change's new state; a poll's only if the service
-- was unknown; a breaker's event shows none.
abbrev pub shows : StoreEvent → Option String → Option String
shows (state_changed evt) _ = some evt.new_state
shows (polled evt) none = some evt.state
shows (polled evt) (some s) = some s
shows (circuit_changed evt) o = o

rehydrate_state :
    (snap : Option ViewSnapshot) (v : ServiceView) → (rehydrate snap v).state ≡ v.state
unfolding rehydrate
rehydrate_state none v = refl
rehydrate_state (some snap) v = refl

-- The state shown of each service after an event: a change of state shows its new state; a poll
-- shows its state only of a service that was unknown, a breaker's event changes nothing, and no event
-- changes what is shown of another service.
pub shown-apply :
    (s : StateStore) (e : StoreEvent) (name : String)
    → shown (apply s e) name
      ≡ (if str_eq (service_of e) name then shows e (shown s name) else shown s name)
unfolding apply apply_state_change apply_metric update_circuit get_service
shown-apply s (state_changed evt) name =
    rw (lookup-insert name evt.service_name _ s.services) ground
      (arith, rehydrate_state evt.snapshot _)
shown-apply s (polled evt) name =
    rw (lookup-insert name evt.service_name _ s.services)
      (elim (Option-cases (lookup evt.service_name s.services)) [
        | inl h ↦ rw (h, metric_view) ground (arith, h, eq_iff evt.service_name name)
        | inr (v, h) ↦ rw (h, metric_view) ground (arith, h, eq_iff evt.service_name name)
      ])
shown-apply s (circuit_changed evt) name =
    elim (Option-cases (lookup evt.service_name s.services)) [
      | inl h ↦ rw (h, circuit_view) ground (arith, h, eq_iff evt.service_name name)
      | inr (v, h) ↦
          rw (h, circuit_view) ground
            (
              arith,
              h,
              eq_iff evt.service_name name,
              lookup-insert name evt.service_name (record v { circuit = some evt.snapshot })
                  s.services,
            )
    ]
