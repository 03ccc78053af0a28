-- ===== src/Api/Incidents/Listed.antt =====
-- The list that apps/api/handlers/incidents.go answers with: its order, and the open incidents in it.
use infrawatch.Prelude.{
  ◌≡◌, ◌≤◌, ◌⊎◌, ℕ, suc, String, true, false, ◌&&◌, List, [], ◌∷◌, str_eq, All, if◌then◌else◌,
}
use infrawatch.Prelude.Map.{Map}
use infrawatch.Api.Incidents.{Incident}

-- What may stand before what: an open incident before one that is closed, and of two open or two closed
-- ones the one that began later, or at the same time.
abbrev pub Precedes : Incident → Incident → Type 0
Precedes i j =
    ((i.is_open ≡ true) × (j.is_open ≡ false))
    ⊎ ((i.is_open ≡ j.is_open) × (j.started_at ≤ i.started_at))

-- Each incident may stand before all that follow it.
abbrev pub IsOrdered : List Incident → Type 0
IsOrdered [] = Unit
IsOrdered (i ∷ is) = All (λ j. Precedes i j) is × IsOrdered is

abbrev counted : String → Incident → ℕ → ℕ
counted name inc n = if inc.is_open && str_eq inc.service_name name then suc n else n
