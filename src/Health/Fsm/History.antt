-- ===== src/Health/Fsm/History.antt =====
-- The recorded transitions of a service (apps/engine/internal/health/state.go).
use infrawatch.Prelude.{◌≡◌, List, [], ◌∷◌}
use infrawatch.Health.Fsm.{State, unknown, Transition}
use infrawatch.Health.Fsm.Graph.{Edge}

-- The records form a path along the diagram that ends in the state `c`; there are none of a service
-- that is UNKNOWN still.
abbrev pub IsPath : List Transition → State → Type 0
IsPath [] c = c ≡ unknown
IsPath (t ∷ []) c = Edge t.from t.to × (t.to ≡ c)
IsPath (t ∷ u ∷ rest) c = Edge t.from t.to × (t.to ≡ u.from) × IsPath (u ∷ rest) c
