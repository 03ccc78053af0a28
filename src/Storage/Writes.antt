-- ===== src/Storage/Writes.antt =====
-- The goroutines that write changes of state, one after the other
-- (apps/engine/internal/storage/db.go).
use infrawatch.Prelude.{
  ◌+◌, ap, ltb, Bool-cases, inl, inr, ◌≡◌, refl, ℕ, String, List, [], ◌∷◌, ◌++◌, Option, none, some,
  arith, str_eq, eq_iff, if◌then◌else◌, All,
}
use infrawatch.Prelude.Time.{Instant}
use infrawatch.Storage.{
  StateChangeRow, IncidentRow, Db, Faults, no_faults, count_open, has_open_incident, open_incident,
  resolve_all, close_incident, Write, inserting, deciding, opening, decided, advance,
  handle_incident, open_unless,
}
use infrawatch.Storage.Incidents.{
  AtMostOne, is_outage, is_end, count_open-append, count_open-open, count_open-resolve_all,
}

-- The unresolved incidents of a service after a change of state, of `n` before it.
abbrev pub settle : StateChangeRow → String → ℕ → ℕ
settle row name n =
    if str_eq row.service name
    then (if is_outage row.to_state then 1 else (if is_end row.to_state then 0 else n))
    else n

-- The same after all the writes that are under way, one after the other.
abbrev pub settled : String → List Write → ℕ → ℕ
settled name [] n = n
settled name (inserting row ∷ ws) n = settled name ws (settle row name n)
settled name (deciding row ∷ ws) n = settled name ws (settle row name n)
settled name (opening service to ∷ ws) n = settled name ws (if str_eq service name then 1 else n)

abbrev pub IsFresh : Write → Type 0
IsFresh (inserting row) = Unit
IsFresh (deciding row) = ⊥
IsFresh (opening service to) = ⊥

-- An incident that is to be inserted is the service's only one.
abbrev pub IsReady : List IncidentRow → Write → Type 0
IsReady rows (inserting row) = Unit
IsReady rows (deciding row) = Unit
IsReady rows (opening service to) = count_open service rows ≡ 0

-- Only the first write has been begun.
abbrev pub AreQueued : List IncidentRow → List Write → Type 0
AreQueued rows [] = Unit
AreQueued rows (w ∷ ws) = IsReady rows w × All IsFresh ws

pub settled-append :
    (name : String) (ws : List Write) (row : StateChangeRow) (n : ℕ)
    → settled name (ws ++ inserting row ∷ []) n ≡ settle row name (settled name ws n)
settled-append name [] row n = refl
settled-append name (inserting r ∷ ws) row n = settled-append name ws row (settle r name n)
settled-append name (deciding r ∷ ws) row n = settled-append name ws row (settle r name n)
settled-append name (opening service to ∷ ws) row n =
    settled-append name ws row (if str_eq service name then 1 else n)

IsFresh-append :
    (ws : List Write) (row : StateChangeRow)
    → All IsFresh ws
    → All IsFresh (ws ++ inserting row ∷ [])
IsFresh-append [] row f = (tt, tt)
IsFresh-append (w ∷ ws) row f = (f.0, IsFresh-append ws row f.1)

pub AreQueued-append :
    (rows : List IncidentRow) (ws : List Write) (row : StateChangeRow)
    → AreQueued rows ws
    → AreQueued rows (ws ++ inserting row ∷ [])
AreQueued-append rows [] row q = (tt, tt)
AreQueued-append rows (w ∷ ws) row q = (q.0, IsFresh-append ws row q.1)

IsFresh-AreQueued : (rows : List IncidentRow) (ws : List Write) → All IsFresh ws → AreQueued rows ws
IsFresh-AreQueued rows [] f = tt
IsFresh-AreQueued rows (inserting row ∷ ws) f = (tt, f.1)
IsFresh-AreQueued rows (deciding row ∷ ws) f = absurd f.0
IsFresh-AreQueued rows (opening service to ∷ ws) f = absurd f.0

-- What is left of the first write stays the first.
abbrev pub requeue : Option Write → List Write → List Write
requeue none ws = ws
requeue (some w) ws = w ∷ ws

-- The tables are as the writes that are left will leave them, with at most one unresolved incident of
-- each service on the way.
pub record Follows (rows : List IncidentRow) (ws : List Write) (rows' : List IncidentRow)
    (ws' : List Write) : Type 0 where
  pub one : AtMostOne rows'
  pub queued : AreQueued rows' ws'
  pub same :
      (name : String)
      → settled name ws' (count_open name rows') ≡ settled name ws (count_open name rows)

count-opened :
    (other name root : String) (now : Instant) (rows : List IncidentRow)
    → count_open other (open_incident no_faults rows name root now).0
      ≡ (if str_eq name other then count_open other rows + 1 else count_open other rows)
unfolding open_incident
count-opened other name root now rows = ground (
  arith,
  count_open-append other rows
      (record { service = name; started_at = now; resolved_at = none; root_state = root } ∷ []),
  count_open-open other name root now,
)

opening-Follows :
    (db : Db) (service to : String) (ws : List Write) (now : Instant)
    → AtMostOne db.incidents
    → AreQueued db.incidents (opening service to ∷ ws)
    → let (db', next) = advance no_faults db (opening service to) now in
      Follows db.incidents (opening service to ∷ ws) db'.incidents (requeue next ws)
unfolding advance
opening-Follows db service to ws now one q =
    let counted : (other : String)
        → count_open other (open_incident no_faults db.incidents service to now).0
          ≡ (if str_eq service other then 1 else count_open other db.incidents) =
      λ other.
        ground (arith, count-opened other service to now db.incidents, q.0, eq_iff service other) in
    record {
      one = λ other. ground (arith, counted other, one other);
      queued = IsFresh-AreQueued _ ws q.1;
      same = λ other. ap (settled other ws) (counted other);
    }

deciding-Follows :
    (db : Db) (row : StateChangeRow) (ws : List Write) (now : Instant)
    → AtMostOne db.incidents
    → All IsFresh ws
    → let (db', next) = advance no_faults db (deciding row) now in
      Follows db.incidents (deciding row ∷ ws) db'.incidents (requeue next ws)
unfolding advance decided has_open_incident close_incident
deciding-Follows db row ws now one q = elim (Bool-cases (is_outage row.to_state)) [
  | inl out ↦ elim (Bool-cases (ltb 0 (count_open row.service db.incidents))) [
    | inl has ↦
        rw (out, has)
          (record {
            one = one;
            queued = IsFresh-AreQueued db.incidents ws q;
            same = λ name.
                ap (settled name ws) (ground (arith, out, has, one name, eq_iff row.service name));
          })
    | inr has ↦
        rw (out, has)
          (record {
            one = one;
            queued =
                (let none_open : count_open row.service db.incidents ≡ 0 = ground (arith, has) in
                  (none_open, q));
            same = λ name. ap (settled name ws) (ground (arith, out));
          })
  ]
  | inr out ↦ elim (Bool-cases (is_end row.to_state)) [
    | inl over ↦
        rw (out, over)
          (let counted : (name : String)
                → count_open name (resolve_all row.service now db.incidents)
                  ≡ (if str_eq row.service name then 0 else count_open name db.incidents) =
              λ name. count_open-resolve_all name row.service now db.incidents in
            record {
              one = λ name. ground (arith, counted name, one name);
              queued = IsFresh-AreQueued _ ws q;
              same = λ name. ap (settled name ws) (ground (arith, counted name, out, over));
            })
    | inr over ↦
        rw (out, over)
          (record {
            one = one;
            queued = IsFresh-AreQueued db.incidents ws q;
            same = λ name. ap (settled name ws) (ground (arith, out, over));
          })
  ]
]

-- The first write is taken further by one statement, which does not fail.
pub advance-Follows :
    (db : Db) (w : Write) (ws : List Write) (now : Instant)
    → AtMostOne db.incidents
    → AreQueued db.incidents (w ∷ ws)
    → let (db', next) = advance no_faults db w now in
      Follows db.incidents (w ∷ ws) db'.incidents (requeue next ws)
unfolding advance
advance-Follows db (inserting row) ws now one q = record {
  one = one;
  queued = (tt, q.1);
  same = λ name. refl;
}
advance-Follows db (deciding row) ws now one q = deciding-Follows db row ws now one q.1
advance-Follows db (opening service to) ws now one q = opening-Follows db service to ws now one q

-- What is left of a write, carried out.
abbrev conclude : Faults → Db × Option Write → Instant → Db
conclude f (db, none) now = db
conclude f (db, some w) now = (advance f db w now).0

-- Undisturbed by others, the statements on the incidents are `handleIncident`.
advance-handle_incident :
    (f : Faults) (db : Db) (row : StateChangeRow) (now : Instant)
    → (conclude f (advance f db (deciding row) now) now).incidents
      ≡ (handle_incident f db.incidents row.service row.to_state now).0
unfolding advance decided handle_incident open_unless has_open_incident
advance-handle_incident f db row now = elim (Bool-cases (is_outage row.to_state)) [
  | inl out ↦ elim (Bool-cases f.count_fails) [
    | inl fails ↦ rw (out, fails) refl
    | inr works ↦ elim (Bool-cases (ltb 0 (count_open row.service db.incidents))) [
      | inl has ↦ rw (out, works, has) refl
      | inr has ↦ rw (out, works, has) refl
    ]
  ]
  | inr out ↦ elim (Bool-cases (is_end row.to_state)) [
    | inl over ↦ rw (out, over) refl
    | inr over ↦ rw (out, over) refl
  ]
]
