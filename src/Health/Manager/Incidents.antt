-- ===== src/Health/Manager/Incidents.antt =====
-- The stored incidents follow the states (apps/engine/internal/health/state_manager.go and
-- apps/engine/internal/storage/db.go).
use infrawatch.Prelude.{
  ◌≡◌, refl, subst, ◌∙◌, ℕ, ◌≤◌, ◌/◌, String, Bool, true, List, [], ◌∷◌, ◌++◌, Option, none, some,
  Bool-cases, is_some, str_eq, if◌then◌else◌, inl, inr, arith, eq_iff,
}
use infrawatch.Prelude.Map.{lookup}
use infrawatch.Prelude.Time.{Instant}
use infrawatch.Config.{ServiceConfig}
use infrawatch.Alerts.Dispatcher.{Dispatcher, err_string}
use infrawatch.Circuit.Registry.{Registry}
use infrawatch.Healing.Healer.{Healer}
use infrawatch.Health.Checker.{CheckResult}
use infrawatch.Health.Fsm.{
  State, unhealthy, dead, state_name, ServiceState, new_service_state, transition,
}
use infrawatch.Health.Fsm.Graph
use infrawatch.Health.Fsm.Graph.{Edge, transition-moves}
use infrawatch.Health.Manager.{
  Outside, Engine, run_write, run_found, write_at, replace_at, new_state_manager, state_of,
  record_result,
}
use infrawatch.Health.Manager.Effect.{
  incidents_of, state_after, record_result_some, record_result_incidents, record_result_writes,
  row_of, step_of,
}
use infrawatch.Storage.{empty_db, Db, Write, inserting, no_faults, count_open, advance}
use infrawatch.Storage.Incidents.{AtMostOne, is_outage, is_end}
use infrawatch.Storage.Writes.{
  settled, AreQueued, settled-append, AreQueued-append, requeue, Follows, advance-Follows,
}

-- The unresolved incidents that a service in a state has.
abbrev pub outages : State → ℕ
outages unhealthy = 1
outages dead = 1
outages _ = 0

-- There is a database, with at most one unresolved incident of each service, and of the writes under way only the
-- first has been begun. Once they are done, each service has an unresolved incident exactly if it is
-- UNHEALTHY or DEAD.
pub record InStep (e : Engine) : Type 0 where
  pub stored : is_some e.db ≡ true
  pub one : AtMostOne (incidents_of e.db)
  pub queued : AreQueued (incidents_of e.db) e.writes
  pub follows :
      (name : String)
      → settled name e.writes (count_open name (incidents_of e.db))
        ≡ outages (state_of e name).current_state

edge_outages :
    (a b : State)
    → Edge a b
    → (if is_outage (state_name b) then 1 else (if is_end (state_name b) then 0 else outages a))
      ≡ outages b
unfolding state_name
edge_outages a b Graph.first_pass = refl
edge_outages a b Graph.first_fail = refl
edge_outages a b Graph.degrade = refl
edge_outages a b Graph.steady = refl
edge_outages a b Graph.worsen = refl
edge_outages a b Graph.die = refl
edge_outages a b Graph.recover_unhealthy = refl
edge_outages a b Graph.recover_dead = refl
edge_outages a b Graph.heal = refl
edge_outages a b Graph.relapse = refl

outages_le : (s : State) → outages s ≤ 1
outages_le s = ground arith

-- The writes under way after a transition, as they will leave the incidents, where they were in step
-- for the polled service.
step_writes :
    (s : ServiceState) (ok : Bool) (ms : ℕ) (msg : String) (now : Instant) (ws : List Write)
    (svc : ServiceConfig) (result : CheckResult) (name : String) (n : ℕ)
    → (str_eq svc.name name ≡ true → settled name ws n ≡ outages s.current_state)
    → let (t, next, changed) = transition s ok ms msg now in
      settled name (if changed then ws ++ inserting (row_of svc result t next) ∷ [] else ws) n
      ≡ (if str_eq svc.name name then outages t.current_state else settled name ws n)
step_writes s ok ms msg now ws svc result name n h =
    let (t, next, changed) = transition s ok ms msg now in
    elim (transition-moves s ok ms msg now) [
      | inl (c, _, same, _, _) ↦ rw (c, same) ground (arith, h)
      | inr (c, moved, _, edge) ↦
          rw (c, moved, settled-append name ws (row_of svc result t next) n) ground
            (arith, h, edge_outages s.current_state next edge)
    ]

-- The writes that a result starts are behind those under way.
record_result-queued :
    (out : Outside) (e : Engine) (svc : ServiceConfig) (result : CheckResult) (now : Instant)
    → InStep e
    → AreQueued (incidents_of e.db) (record_result out e svc result now).writes
record_result-queued out e svc result now v =
    let (t, next, changed) = step_of e svc result now in
    rw (record_result_writes out e svc result now v.stored) (elim (Bool-cases changed) [
      | inl c ↦
          rw c (AreQueued-append (incidents_of e.db) e.writes (row_of svc result t next) v.queued)
      | inr c ↦ rw c v.queued
    ])

-- A poll's result starts the write that keeps the incidents in step with the states.
pub record_result-InStep :
    (out : Outside) (e : Engine) (svc : ServiceConfig) (result : CheckResult) (now : Instant)
    → InStep e
    → InStep (record_result out e svc result now)
record_result-InStep out e svc result now v = record {
  stored = record_result_some out e svc result now ∙ v.stored;
  one = rw (record_result_incidents out e svc result now) v.one;
  queued =
      rw (record_result_incidents out e svc result now)
        (record_result-queued out e svc result now v);
  follows = λ name.
      rw
        (
          state_after out e svc result now name,
          record_result_incidents out e svc result now,
          record_result_writes out e svc result now v.stored,
        )
        (step_writes (state_of e svc.name) result.ok (result.response_time / 1_000_000)
            (err_string result.error) now e.writes svc result name
            (count_open name (incidents_of e.db))
            (λ same. rw ((eq_iff svc.name name).0 same) (v.follows name))
          ∙ ground (arith, v.follows name));
}

replace_first :
    (next : Option Write) (w : Write) (ws : List Write)
    → replace_at 0 next (w ∷ ws) ≡ requeue next ws
unfolding replace_at
replace_first none w ws = refl
replace_first (some next) w ws = refl

run_found-InStep :
    (out : Outside) (e : Engine) (now : Instant) (db : Option Db) (ws : List Write)
    → out.faults ≡ no_faults
    → e.db ≡ db
    → e.writes ≡ ws
    → InStep e
    → InStep (run_found out e 0 now db (write_at 0 ws))
unfolding run_found write_at
run_found-InStep out e now none ws sound d q v = v
run_found-InStep out e now (some db) [] sound d q v = v
run_found-InStep out e now (some db) (w ∷ ws) sound d q v =
    let queued : AreQueued (incidents_of e.db) (w ∷ ws) =
      subst (λ l. AreQueued (incidents_of e.db) l) q v.queued in
    let f : Follows db.incidents (w ∷ ws) (advance no_faults db w now).0.incidents
        (requeue (advance no_faults db w now).1 ws) =
      advance-Follows db w ws now (subst (λ o. AtMostOne (incidents_of o)) d v.one)
        (subst (λ o. AreQueued (incidents_of o) (w ∷ ws)) d queued) in
    record {
      stored = refl;
      one = rw sound f.one;
      queued = rw (sound, q, replace_first (advance no_faults db w now).1 w ws) f.queued;
      follows = λ name.
          rw (sound, q, replace_first (advance no_faults db w now).1 w ws)
            (f.same name
              ∙ subst
                  (λ o.
                    settled name (w ∷ ws) (count_open name (incidents_of o))
                    ≡ outages (state_of e name).current_state)
                  d
                  (subst
                    (λ l.
                      settled name l (count_open name (incidents_of e.db))
                      ≡ outages (state_of e name).current_state)
                    q (v.follows name)));
    }

-- One statement of the first write.
pub run_write-InStep :
    (out : Outside) (e : Engine) (now : Instant)
    → out.faults ≡ no_faults
    → InStep e
    → InStep (run_write out e 0 now)
unfolding run_write
run_write-InStep out e now sound v = run_found-InStep out e now e.db e.writes sound refl refl v

-- A new engine with an empty database is in step.
pub new_state_manager-InStep :
    (alerts : Dispatcher) (healer : Healer) (cb : Registry)
    → InStep (new_state_manager alerts healer cb (some empty_db))
unfolding new_state_manager count_open lookup new_service_state
new_state_manager-InStep alerts healer cb = record {
  stored = refl;
  one = λ name. omega arith;
  queued = tt;
  follows = λ name. refl;
}
