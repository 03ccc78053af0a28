-- ===== src/Health/Manager/Effect.antt =====
-- What `Record` does to the states and to the incidents
-- (apps/engine/internal/health/state_manager.go).
use infrawatch.Prelude.{
  ◌≡◌, refl, ◌∙◌, ◌/◌, String, Bool, true, List, [], ◌∷◌, ◌++◌, Option, none, some, str_eq, is_some,
  if◌then◌else◌, Option-cases, Bool-cases, inl, inr, arith,
}
use infrawatch.Prelude.Map.{lookup, insert, lookup-insert}
use infrawatch.Prelude.Time.{Instant}
use infrawatch.Config.{ServiceConfig}
use infrawatch.Alerts.Dispatcher.{AlertDeliveryAttempt, err_string}
use infrawatch.Health.Checker.{CheckResult}
use infrawatch.Health.Fsm.{
  State, healthy, degraded, unhealthy, dead, recovering, unknown, state_name, previous_name,
  ServiceState, transition,
}
use infrawatch.Health.Manager.{
  Outside, Engine, state_of, with_db, start_write, write_attempts, trigger_since,
  maybe_trigger_healing, record_metric, announce, follow_up, record_result,
}
use infrawatch.Storage.{
  Db, Faults, IncidentRow, StateChangeRow, Write, inserting, write_metric, write_alert_history,
}

-- The incidents that are stored; none without a database.
abbrev pub incidents_of : Option Db → List IncidentRow
incidents_of none = []
incidents_of (some db) = db.incidents

write_attempts_incidents :
    (f : Faults) (attempts : List AlertDeliveryAttempt) (db : Db)
    → (write_attempts f attempts db).incidents ≡ db.incidents
unfolding write_attempts write_alert_history
write_attempts_incidents f [] db = refl
write_attempts_incidents f (a ∷ attempts) db =
    write_attempts_incidents f attempts (write_alert_history f db a) ∙ ground arith

-- A healing attempt that is started, or not, changes neither the states nor the database.
trigger_kept :
    (e : Engine) (svc : ServiceConfig) (now : Instant)
    → ((maybe_trigger_healing e svc now).states ≡ e.states)
      × ((maybe_trigger_healing e svc now).db ≡ e.db)
      × ((maybe_trigger_healing e svc now).writes ≡ e.writes)
unfolding maybe_trigger_healing
trigger_kept e svc now = elim (Option-cases (lookup svc.name e.healing_attempts)) [
  | inl h ↦ rw (h, trigger_since) (refl, refl, refl)
  | inr (last, h) ↦ rw (h, trigger_since) ground arith
]

pub follow_up_kept :
    (e : Engine) (svc : ServiceConfig) (next : State) (now : Instant)
    → ((follow_up e svc next now).states ≡ e.states)
      × ((follow_up e svc next now).db ≡ e.db)
      × ((follow_up e svc next now).writes ≡ e.writes)
unfolding follow_up
follow_up_kept e svc healthy now = (refl, refl, refl)
follow_up_kept e svc degraded now = (refl, refl, refl)
follow_up_kept e svc unhealthy now = (refl, refl, refl)
follow_up_kept e svc dead now = trigger_kept e svc now
follow_up_kept e svc recovering now = (refl, refl, refl)
follow_up_kept e svc unknown now = (refl, refl, refl)

with_db_incidents :
    (write : Db → Db) (db : Option Db)
    → ((d : Db) → (write d).incidents ≡ d.incidents)
    → incidents_of (with_db write db) ≡ incidents_of db
with_db_incidents write none h = refl
with_db_incidents write (some d) h = h d

with_db_some : (write : Db → Db) (db : Option Db) → is_some (with_db write db) ≡ is_some db
with_db_some write none = refl
with_db_some write (some d) = refl

metric_incidents :
    (out : Outside) (e : Engine) (svc : ServiceConfig) (result : CheckResult) (s : ServiceState)
    (next : State)
    → incidents_of (record_metric out e svc result s next).db ≡ incidents_of e.db
unfolding record_metric write_metric
metric_incidents out e svc result s next = with_db_incidents _ e.db (λ d. ground arith)

announce_incidents :
    (out : Outside) (e : Engine) (svc : ServiceConfig) (result : CheckResult) (s : ServiceState)
    (next : State) (now : Instant)
    → incidents_of (announce out e svc result s next now).db ≡ incidents_of e.db
unfolding announce
announce_incidents out e svc result s next now =
    with_db_incidents _ e.db (write_attempts_incidents out.faults _)

-- The row of a change of state.
abbrev pub row_of : ServiceConfig → CheckResult → ServiceState → State → StateChangeRow
row_of svc result s next = record {
  service = svc.name;
  from_state = previous_name s.previous_state;
  to_state = state_name next;
  reason = err_string result.error;
}

start_write_some :
    (db : Option Db) (row : StateChangeRow) (ws : List Write)
    → is_some db ≡ true
    → start_write db row ws ≡ ws ++ inserting row ∷ []
unfolding start_write
start_write_some none row ws h = absurd (ground (arith, h))
start_write_some (some db) row ws h = refl

announce_some :
    (out : Outside) (e : Engine) (svc : ServiceConfig) (result : CheckResult) (s : ServiceState)
    (next : State) (now : Instant)
    → is_some (announce out e svc result s next now).db ≡ is_some e.db
unfolding announce
announce_some out e svc result s next now = with_db_some _ e.db

metric_some :
    (out : Outside) (e : Engine) (svc : ServiceConfig) (result : CheckResult) (s : ServiceState)
    (next : State)
    → is_some (record_metric out e svc result s next).db ≡ is_some e.db
unfolding record_metric
metric_some out e svc result s next = with_db_some _ e.db

-- The transition that `Record` makes.
abbrev pub step_of : Engine → ServiceConfig → CheckResult → Instant → ServiceState × State × Bool
step_of e svc result now =
    transition (state_of e svc.name) result.ok (result.response_time / 1_000_000)
      (err_string result.error) now

pub record_result_states :
    (out : Outside) (e : Engine) (svc : ServiceConfig) (result : CheckResult) (now : Instant)
    → (record_result out e svc result now).states
      ≡ insert svc.name (step_of e svc result now).0 e.states
unfolding record_result announce record_metric
record_result_states out e svc result now = elim (Bool-cases (step_of e svc result now).2) [
  | inl h ↦ rw h (follow_up_kept _ svc _ now).0
  | inr h ↦ rw h refl
]

-- The other services keep their state, and the polled one has the state of its transition.
pub state_after :
    (out : Outside) (e : Engine) (svc : ServiceConfig) (result : CheckResult) (now : Instant)
    (name : String)
    → state_of (record_result out e svc result now) name
      ≡ (if str_eq svc.name name then (step_of e svc result now).0 else state_of e name)
state_after out e svc result now name =
    rw (record_result_states out e svc result now, lookup-insert name svc.name) ground arith

pub record_result_some :
    (out : Outside) (e : Engine) (svc : ServiceConfig) (result : CheckResult) (now : Instant)
    → is_some (record_result out e svc result now).db ≡ is_some e.db
unfolding record_result record_metric
record_result_some out e svc result now = elim (Bool-cases (step_of e svc result now).2) [
  | inl h ↦
      rw
        (
          h,
          (follow_up_kept
              (announce out
                (record_metric out e svc result (step_of e svc result now).0
                  (step_of e svc result now).1)
                svc result (step_of e svc result now).0 (step_of e svc result now).1 now)
              svc (step_of e svc result now).1 now).1,
        )
        (announce_some out _ svc result _ _ now ∙ with_db_some _ e.db)
  | inr h ↦ rw h (with_db_some _ e.db)
]

pub record_result_incidents :
    (out : Outside) (e : Engine) (svc : ServiceConfig) (result : CheckResult) (now : Instant)
    → incidents_of (record_result out e svc result now).db ≡ incidents_of e.db
unfolding record_result
record_result_incidents out e svc result now =
    let (s, next, changed) = step_of e svc result now in
    let polled = record_metric out e svc result s next in
    let kept = metric_incidents out e svc result s next in
    elim (Bool-cases changed) [
      | inl c ↦
          rw (c, (follow_up_kept (announce out polled svc result s next now) svc next now).1)
            (announce_incidents out polled svc result s next now ∙ kept)
      | inr c ↦ rw c kept
    ]

-- A change of state starts a write.
pub record_result_writes :
    (out : Outside) (e : Engine) (svc : ServiceConfig) (result : CheckResult) (now : Instant)
    → is_some e.db ≡ true
    → (record_result out e svc result now).writes ≡ (
        if (step_of e svc result now).2
        then e.writes
          ++ inserting (row_of svc result (step_of e svc result now).0 (step_of e svc result now).1)
            ∷ []
        else e.writes)
unfolding record_result announce record_metric
record_result_writes out e svc result now h =
    let (s, next, changed) = step_of e svc result now in
    let polled = record_metric out e svc result s next in
    elim (Bool-cases changed) [
      | inl c ↦
          rw (c, (follow_up_kept (announce out polled svc result s next now) svc next now).2)
            (start_write_some polled.db (row_of svc result s next) e.writes
              (metric_some out e svc result s next ∙ h))
      | inr c ↦ rw c refl
    ]
