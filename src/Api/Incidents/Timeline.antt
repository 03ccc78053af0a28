-- ===== src/Api/Incidents/Timeline.antt =====
-- What each incident is like that apps/api/handlers/incidents.go computes from the state changes.
use infrawatch.Prelude.{
  ◌≡◌, refl, ap, subst, ◌⊎◌, inl, inr, String, true, false, List, [], ◌∷◌, ◌++◌, Option, none, some,
  arith, str_eq, All, Bool-cases, some_inj, if◌then◌else◌,
}
use infrawatch.Prelude.Map.{Map, lookup, insert, delete}
use infrawatch.Prelude.Time.{Instant, since}
use infrawatch.Api.Incidents.{
  IncidentEvent, Incident, StateChange, is_healthy_state, event_of, new_incident, extend, resolve,
  summed, build_summary, Books, book_found, book, book_all, open_ones, build_incidents,
}

abbrev AllBad : List IncidentEvent → Type 0
AllBad evts = All (λ e. is_healthy_state e.to ≡ false) evts

-- The first event of the timeline gives the start.
abbrev pub Starts : Incident → Type 0
Starts inc =
    (first : IncidentEvent) × (rest : List IncidentEvent) × (inc.timeline ≡ first ∷ rest)
    × (inc.started_at ≡ first.timestamp)

abbrev pub IsLive : Incident → Type 0
IsLive inc = (inc.is_open ≡ true) × (inc.resolved_at ≡ none) × AllBad inc.timeline × Starts inc

-- Only the last event leads to a healthy state, and it ends the incident.
abbrev pub IsOver : Incident → Type 0
IsOver inc =
    (inc.is_open ≡ false)
    × ((earlier : List IncidentEvent) × (last : IncidentEvent) × (inc.timeline
          ≡ earlier ++ last ∷ [])
        × AllBad earlier
        × (is_healthy_state last.to ≡ true)
        × (inc.resolved_at ≡ some last.timestamp)
        × (inc.duration ≡ since last.timestamp inc.started_at))
    × Starts inc

append-AllBad :
    (evts : List IncidentEvent) (e : IncidentEvent)
    → AllBad evts
    → is_healthy_state e.to ≡ false
    → AllBad (evts ++ e ∷ [])
append-AllBad [] e a h = (h, tt)
append-AllBad (x ∷ evts) e a h = (a.0, append-AllBad evts e a.1 h)

extend-Starts : (inc : Incident) (evt : StateChange) → Starts inc → Starts (extend inc evt)
extend-Starts inc evt (first, rest, t, s) =
    (first, rest ++ event_of evt ∷ [], ap (λ l. l ++ event_of evt ∷ []) t, s)

extend-IsLive :
    (inc : Incident) (evt : StateChange)
    → is_healthy_state evt.new_state ≡ false
    → IsLive inc
    → IsLive (extend inc evt)
extend-IsLive inc evt h (o, r, b, s) =
    (o, r, append-AllBad inc.timeline (event_of evt) b h, extend-Starts inc evt s)

resolve-IsOver :
    (inc : Incident) (evt : StateChange)
    → is_healthy_state evt.new_state ≡ true
    → IsLive inc
    → IsOver (resolve (extend inc evt) evt.timestamp)
resolve-IsOver inc evt h (o, r, b, s) =
    (refl, (inc.timeline, event_of evt, refl, b, h, refl, refl), extend-Starts inc evt s)

abbrev AllLive : Map Incident → Type 0
AllLive [] = Unit
AllLive ((k, inc) ∷ m) = IsLive inc × AllLive m

lookup-IsLive :
    (k : String) (inc : Incident) (m : Map Incident)
    → AllLive m
    → lookup k m ≡ some inc
    → IsLive inc
unfolding lookup
lookup-IsLive k inc [] a h = absurd (ground (arith, h))
lookup-IsLive k inc ((j, v) ∷ m) a h = elim (Bool-cases (str_eq j k)) [
  | inl e ↦
      subst IsLive (some_inj v inc (subst (λ b. (if b then some v else lookup k m) ≡ some inc) e h))
        a.0
  | inr e ↦
      lookup-IsLive k inc m a.1 (subst (λ b. (if b then some v else lookup k m) ≡ some inc) e h)
]

insert-AllLive :
    (k : String) (inc : Incident) (m : Map Incident)
    → IsLive inc
    → AllLive m
    → AllLive (insert k inc m)
unfolding insert
insert-AllLive k inc [] o a = (o, tt)
insert-AllLive k inc ((j, v) ∷ m) o a = elim (Bool-cases (str_eq j k)) [
  | inl e ↦ rw e (o, a.1)
  | inr e ↦ rw e (a.0, insert-AllLive k inc m o a.1)
]

delete-AllLive : (k : String) (m : Map Incident) → AllLive m → AllLive (delete k m)
unfolding delete
delete-AllLive k [] a = tt
delete-AllLive k ((j, v) ∷ m) a = elim (Bool-cases (str_eq j k)) [
  | inl e ↦ rw e (delete-AllLive k m a.1)
  | inr e ↦ rw e (a.0, delete-AllLive k m a.1)
]

-- An incident of the result, with its summary.
abbrev pub IsTold : Instant → Incident → Type 0
IsTold now inc = (IsLive inc ⊎ IsOver inc) × (inc.summary ≡ build_summary now inc)

summed-IsTold :
    (now : Instant) (inc : Incident) → IsLive inc ⊎ IsOver inc → IsTold now (summed now inc)
unfolding build_summary
summed-IsTold now inc (inl h) = (inl h, refl)
summed-IsTold now inc (inr h) = (inr h, refl)

append-All :
    (now : Instant) (xs ys : List Incident)
    → All (IsTold now) xs
    → All (IsTold now) ys
    → All (IsTold now) (xs ++ ys)
append-All now [] ys a b = b
append-All now (x ∷ xs) ys a b = (a.0, append-All now xs ys a.1 b)

abbrev Tells : Instant → Books → Type 0
Tells now b = AllLive b.opened × All (IsTold now) b.closed

book_found-Tells :
    (now : Instant) (b : Books) (evt : StateChange) (o : Option Incident)
    → lookup evt.service_name b.opened ≡ o
    → Tells now b
    → Tells now (book_found now b evt o)
unfolding book_found
book_found-Tells now b evt none h v = elim (Bool-cases (is_healthy_state evt.new_state)) [
  | inl e ↦ rw e v
  | inr e ↦ rw e (
    insert-AllLive evt.service_name (new_incident evt) b.opened
        (refl, refl, (e, tt), (event_of evt, [], refl, refl)) v.0,
    v.1,
  )
]
book_found-Tells now b evt (some inc) h v =
    let live = lookup-IsLive evt.service_name inc b.opened v.0 h in
    elim (Bool-cases (is_healthy_state evt.new_state)) [
      | inl e ↦ rw e (
        delete-AllLive evt.service_name b.opened v.0,
        append-All now b.closed _ v.1 (
          summed-IsTold now (resolve (extend inc evt) evt.timestamp)
              (inr (resolve-IsOver inc evt e live)),
          tt,
        ),
      )
      | inr e ↦ rw e (
        insert-AllLive evt.service_name (extend inc evt) b.opened (extend-IsLive inc evt e live)
            v.0,
        v.1,
      )
    ]

book-Tells :
    (now : Instant) (b : Books) (m : Option StateChange) → Tells now b → Tells now (book now b m)
unfolding book
book-Tells now b none v = v
book-Tells now b (some evt) v = book_found-Tells now b evt (lookup evt.service_name b.opened) refl v

book_all-Tells :
    (now : Instant) (b : Books) (msgs : List (Option StateChange))
    → Tells now b
    → Tells now (book_all now b msgs)
unfolding book_all
book_all-Tells now b [] v = v
book_all-Tells now b (m ∷ msgs) v = book_all-Tells now (book now b m) msgs (book-Tells now b m v)

open_ones-IsTold :
    (now : Instant) (m : Map Incident) → AllLive m → All (IsTold now) (open_ones now m)
unfolding open_ones
open_ones-IsTold now [] a = tt
open_ones-IsTold now ((k, inc) ∷ m) a =
    (summed-IsTold now inc (inl a.0), open_ones-IsTold now m a.1)

-- Each computed incident starts at its first event. An open one has only events that lead to states other than HEALTHY and UNKNOWN and no time of
-- resolution; of a closed one only the last event leads to HEALTHY or UNKNOWN, and gives the resolution and the duration. The summary is the one of the finished timeline.
pub build_incidents-IsTold :
    (now : Instant) (msgs : List (Option StateChange)) → All (IsTold now) (build_incidents now msgs)
unfolding build_incidents
build_incidents-IsTold now msgs =
    let told = book_all-Tells now (record { opened = []; closed = [] }) msgs (tt, tt) in
    append-All now _ _ told.1 (open_ones-IsTold now _ told.0)
