-- ===== src/Api/Incidents/Own.antt =====
-- The open incidents stand under their services, and the closed ones are closed
-- (apps/api/handlers/incidents.go).
use infrawatch.Prelude.{
  ◌≡◌, subst, ◌∙◌, String, true, false, List, [], ◌∷◌, ◌++◌, some, str_eq, eq_iff, arith, All,
  if◌then◌else◌, Bool-cases, inl, inr, some_inj,
}
use infrawatch.Prelude.Map.{Map, lookup, insert, delete}
use infrawatch.Api.Incidents.{Incident}

-- An open incident stands under its own service.
abbrev pub IsOwn : String → Incident → Type 0
IsOwn k inc = (inc.service_name ≡ k) × (inc.is_open ≡ true)

abbrev pub AllOwn : Map Incident → Type 0
AllOwn [] = Unit
AllOwn ((k, inc) ∷ m) = IsOwn k inc × AllOwn m

pub lookup-IsOwn :
    (k : String) (inc : Incident) (m : Map Incident)
    → AllOwn m
    → lookup k m ≡ some inc
    → IsOwn k inc
unfolding lookup
lookup-IsOwn k inc [] a h = absurd (ground (arith, h))
lookup-IsOwn k inc ((j, v) ∷ m) a h = elim (Bool-cases (str_eq j k)) [
  | inl e ↦
      let same : v ≡ inc =
        some_inj v inc (subst (λ b. (if b then some v else lookup k m) ≡ some inc) e h) in
      subst (IsOwn k) same (a.0.0 ∙ (eq_iff j k).0 e, a.0.1)
  | inr e ↦
      lookup-IsOwn k inc m a.1 (subst (λ b. (if b then some v else lookup k m) ≡ some inc) e h)
]

pub insert-AllOwn :
    (k : String) (inc : Incident) (m : Map Incident)
    → IsOwn k inc
    → AllOwn m
    → AllOwn (insert k inc m)
unfolding insert
insert-AllOwn k inc [] o a = (o, tt)
insert-AllOwn k inc ((j, v) ∷ m) o a = elim (Bool-cases (str_eq j k)) [
  | inl e ↦ rw e (o, a.1)
  | inr e ↦ rw e (a.0, insert-AllOwn k inc m o a.1)
]

pub delete-AllOwn : (k : String) (m : Map Incident) → AllOwn m → AllOwn (delete k m)
unfolding delete
delete-AllOwn k [] a = tt
delete-AllOwn k ((j, v) ∷ m) a = elim (Bool-cases (str_eq j k)) [
  | inl e ↦ rw e (delete-AllOwn k m a.1)
  | inr e ↦ rw e (a.0, delete-AllOwn k m a.1)
]

abbrev pub AllClosed : List Incident → Type 0
AllClosed is = All (λ inc. inc.is_open ≡ false) is

pub append-AllClosed :
    (is : List Incident) (inc : Incident)
    → AllClosed is
    → inc.is_open ≡ false
    → AllClosed (is ++ inc ∷ [])
append-AllClosed [] inc a h = (h, tt)
append-AllClosed (i ∷ is) inc a h = (a.0, append-AllClosed is inc a.1 h)
