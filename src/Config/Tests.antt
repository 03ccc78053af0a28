-- ===== src/Config/Tests.antt =====
-- The defaults of a sparse configuration (apps/engine/config/config.go).
use infrawatch.Prelude.{◌≡◌, refl}
use infrawatch.Prelude.Int.{pos}
use infrawatch.Config.Samples.{sparse_config}
use infrawatch.Config.Defaults.{apply_defaults}

circuit_given : (apply_defaults sparse_config).circuit.failure_threshold ≡ pos 3
unfolding apply_defaults
circuit_given = refl
