-- ===== src/Api/Incidents/Open.antt =====
-- Which services have an open incident, in the incidents that apps/api/handlers/incidents.go computes.
use infrawatch.Prelude.{
  ◌≡◌, refl, sym, ap, ◌∙◌, ℕ, suc, String, Bool, true, false, not, ◌&&◌, List, [], ◌∷◌, ◌++◌,
  Option, none, some, is_some, str_eq, eq_iff, arith, if◌then◌else◌, Bool-cases, inl, inr,
}
use infrawatch.Prelude.Map.{
  Map, lookup, lookup-insert, lookup-delete, Distinct, insert-Distinct, delete-Distinct,
}
use infrawatch.Prelude.Time.{Instant}
use infrawatch.Api.Incidents.{
  Incident, StateChange, is_healthy_state, new_incident, extend, summed, resolve, Books, book_found,
  book, book_all, open_ones, build_incidents,
}
use infrawatch.Api.Incidents.Own.{
  AllOwn, AllClosed, lookup-IsOwn, insert-AllOwn, delete-AllOwn, append-AllClosed,
}

-- The open incidents of a service.
abbrev pub count_open : String → List Incident → ℕ
count_open name [] = 0
count_open name (inc ∷ all) =
    let rest = count_open name all in
    if inc.is_open && str_eq inc.service_name name then suc rest else rest

-- Whether the service's state is bad after one more message, and after many.
abbrev pub is_bad_after : String → Option StateChange → Bool → Bool
is_bad_after name none bad = bad
is_bad_after name (some evt) bad =
    if str_eq evt.service_name name then not (is_healthy_state evt.new_state) else bad

abbrev pub is_bad : String → Bool → List (Option StateChange) → Bool
is_bad name bad [] = bad
is_bad name bad (m ∷ msgs) = is_bad name (is_bad_after name m bad) msgs

book_found-opened :
    (now : Instant) (name : String) (b : Books) (evt : StateChange) (o : Option Incident)
    → lookup evt.service_name b.opened ≡ o
    → is_some (lookup name (book_found now b evt o).opened)
      ≡ is_bad_after name (some evt) (is_some (lookup name b.opened))
unfolding book_found
book_found-opened now name b evt none h =
    let here = λ (q : str_eq evt.service_name name ≡ true).
      ap (λ n. lookup n b.opened) (sym ((eq_iff evt.service_name name).0 q)) ∙ h in
    elim (Bool-cases (is_healthy_state evt.new_state)) [
      | inl e ↦ rw e (elim (Bool-cases (str_eq evt.service_name name)) [
        | inl q ↦ rw (q, here q) refl
        | inr q ↦ rw q refl
      ])
      | inr e ↦
          rw (e, lookup-insert name evt.service_name (new_incident evt) b.opened)
            (elim (Bool-cases (str_eq evt.service_name name)) [
              | inl q ↦ rw q refl
              | inr q ↦ rw q refl
            ])
    ]
book_found-opened now name b evt (some inc) h = elim (Bool-cases (is_healthy_state evt.new_state)) [
  | inl e ↦
      rw (e, lookup-delete name evt.service_name b.opened)
        (elim (Bool-cases (str_eq evt.service_name name)) [ inl q ↦ rw q refl | inr q ↦ rw q refl ])
  | inr e ↦
      rw (e, lookup-insert name evt.service_name (extend inc evt) b.opened)
        (elim (Bool-cases (str_eq evt.service_name name)) [ inl q ↦ rw q refl | inr q ↦ rw q refl ])
]

book-opened :
    (now : Instant) (name : String) (b : Books) (m : Option StateChange)
    → is_some (lookup name (book now b m).opened)
      ≡ is_bad_after name m (is_some (lookup name b.opened))
unfolding book
book-opened now name b none = refl
book-opened now name b (some evt) =
    book_found-opened now name b evt (lookup evt.service_name b.opened) refl

book_all-opened :
    (now : Instant) (name : String) (b : Books) (msgs : List (Option StateChange))
    → is_some (lookup name (book_all now b msgs).opened)
      ≡ is_bad name (is_some (lookup name b.opened)) msgs
unfolding book_all
book_all-opened now name b [] = refl
book_all-opened now name b (m ∷ msgs) =
    book_all-opened now name (book now b m) msgs
    ∙ ap (λ bad. is_bad name bad msgs) (book-opened now name b m)

record IsKept (b : Books) : Type 0 where
  distinct : Distinct b.opened
  own : AllOwn b.opened
  over : AllClosed b.closed

book_found-IsKept :
    (now : Instant) (b : Books) (evt : StateChange) (o : Option Incident)
    → lookup evt.service_name b.opened ≡ o
    → IsKept b
    → IsKept (book_found now b evt o)
unfolding book_found
book_found-IsKept now b evt none h v = elim (Bool-cases (is_healthy_state evt.new_state)) [
  | inl e ↦ rw e v
  | inr e ↦ rw e (record {
    distinct = insert-Distinct evt.service_name (new_incident evt) b.opened v.distinct;
    own = insert-AllOwn evt.service_name (new_incident evt) b.opened (refl, refl) v.own;
    over = v.over;
  })
]
book_found-IsKept now b evt (some inc) h v = elim (Bool-cases (is_healthy_state evt.new_state)) [
  | inl e ↦ rw e (record {
    distinct = delete-Distinct evt.service_name b.opened v.distinct;
    own = delete-AllOwn evt.service_name b.opened v.own;
    over =
        append-AllClosed b.closed (summed now (resolve (extend inc evt) evt.timestamp)) v.over refl;
  })
  | inr e ↦ rw e (record {
    distinct = insert-Distinct evt.service_name (extend inc evt) b.opened v.distinct;
    own =
        insert-AllOwn evt.service_name (extend inc evt) b.opened
          (lookup-IsOwn evt.service_name inc b.opened v.own h) v.own;
    over = v.over;
  })
]

book-IsKept :
    (now : Instant) (b : Books) (m : Option StateChange) → IsKept b → IsKept (book now b m)
unfolding book
book-IsKept now b none v = v
book-IsKept now b (some evt) v =
    book_found-IsKept now b evt (lookup evt.service_name b.opened) refl v

book_all-IsKept :
    (now : Instant) (b : Books) (msgs : List (Option StateChange))
    → IsKept b
    → IsKept (book_all now b msgs)
unfolding book_all
book_all-IsKept now b [] v = v
book_all-IsKept now b (m ∷ msgs) v = book_all-IsKept now (book now b m) msgs (book-IsKept now b m v)

count_open-append :
    (name : String) (xs ys : List Incident)
    → AllClosed xs
    → count_open name (xs ++ ys) ≡ count_open name ys
count_open-append name [] ys a = refl
count_open-append name (x ∷ xs) ys a = ground (arith, a.0, count_open-append name xs ys a.1)

count_open-open_ones :
    (now : Instant) (name : String) (m : Map Incident)
    → Distinct m
    → AllOwn m
    → count_open name (open_ones now m) ≡ (if is_some (lookup name m) then 1 else 0)
unfolding open_ones lookup
count_open-open_ones now name [] d a = refl
count_open-open_ones now name ((k, inc) ∷ m) d a =
    let rest = count_open-open_ones now name m d.1 a.1 in
    elim (Bool-cases (str_eq k name)) [
      | inl e ↦
          let same = (eq_iff k name).0 e in
          let absent : lookup name m ≡ none = ap (λ n. lookup n m) (sym same) ∙ d.0 in
          let none_left : count_open name (open_ones now m) ≡ 0 =
            rest ∙ ap (λ o. if is_some o then 1 else 0) absent in
          ground (arith, none_left, a.0.1, e, same, a.0.0, eq_iff inc.service_name name)
      | inr e ↦ ground (arith, rest, e, a.0.0, a.0.1, eq_iff inc.service_name name, eq_iff k name)
    ]

-- Of any messages, decodable or not: a service has exactly one open incident if the last state change that tells of it
-- leads to a state other than HEALTHY and UNKNOWN, and else it has none.
pub build_incidents-open :
    (now : Instant) (name : String) (msgs : List (Option StateChange))
    → count_open name (build_incidents now msgs) ≡ (if is_bad name false msgs then 1 else 0)
unfolding build_incidents lookup
build_incidents-open now name msgs =
    let start : Books = record { opened = []; closed = [] } in
    let kept = book_all-IsKept now start msgs (record { distinct = tt; own = tt; over = tt }) in
    let b = book_all now start msgs in
    count_open-append name b.closed (open_ones now b.opened) kept.over
    ∙ count_open-open_ones now name b.opened kept.distinct kept.own
    ∙ ap (λ bad. if bad then 1 else 0) (book_all-opened now name start msgs)
