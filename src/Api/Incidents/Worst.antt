-- ===== src/Api/Incidents/Worst.antt =====
-- The state that a summary names: `worstState` of apps/api/handlers/incidents.go.
use infrawatch.Prelude.{
  ◌≡◌, refl, ◌⊎◌, inl, inr, ◌≤◌, String, List, [], ◌∷◌, ltb, arith, All, Bool, true, false,
  if◌then◌else◌,
}
use infrawatch.Api.Incidents.{IncidentEvent, order, worst_state, worse}

-- The text is the state of one of the events.
abbrev pub Occurs : String → List IncidentEvent → Type 0
Occurs s [] = ⊥
Occurs s (e ∷ evts) = (s ≡ e.to) ⊎ Occurs s evts

abbrev IsMax : String → List IncidentEvent → String → Type 0
IsMax worst evts s =
    (order worst ≤ order s) × All (λ e. order e.to ≤ order s) evts × ((s ≡ worst) ⊎ Occurs s evts)

-- One event, when its state is worse or not.
worse-step :
    (worst : String) (e : IncidentEvent) (evts : List IncidentEvent) (b : Bool)
    → ltb (order worst) (order e.to) ≡ b
    → ((w : String) → IsMax w evts (worse w evts))
    → IsMax worst (e ∷ evts) (worse (if b then e.to else worst) evts)
worse-step worst e evts true h k =
    let (low, all, from) = k e.to in
    (ground (arith, h, low), (low, all), elim from [ inl q ↦ inr (inl q) | inr q ↦ inr (inr q) ])
worse-step worst e evts false h k =
    let (low, all, from) = k worst in
    (low, (ground (arith, h, low), all), elim from [ inl q ↦ inl q | inr q ↦ inr (inr q) ])

worse-IsMax : (worst : String) (evts : List IncidentEvent) → IsMax worst evts (worse worst evts)
unfolding worse
worse-IsMax worst [] = (omega arith, tt, inl refl)
worse-IsMax worst (e ∷ evts) =
    worse-step worst e evts (ltb (order worst) (order e.to)) refl (λ w. worse-IsMax w evts)

-- No event of a timeline leads to a worse state than the one that its summary names, which is the state of an
-- event or DEGRADED.
pub worst_state-max :
    (evts : List IncidentEvent)
    → All (λ e. order e.to ≤ order (worst_state evts)) evts
      × ((worst_state evts ≡ "DEGRADED") ⊎ Occurs (worst_state evts) evts)
unfolding worst_state
worst_state-max evts = let (_, all, from) = worse-IsMax "DEGRADED" evts in (all, from)
