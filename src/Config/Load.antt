-- ===== src/Config/Load.antt =====
-- apps/engine/config/config.go: loading the configuration from the text of its file. `os.ExpandEnv` and
-- `yaml.Unmarshal` are parameters.
use infrawatch.Prelude.{String, ◌⊎◌, inl, inr}
use infrawatch.Config.{Config}
use infrawatch.Config.Defaults.{apply_defaults}

with_defaults : Config ⊎ String → Config ⊎ String
with_defaults (inl cfg) = inl (apply_defaults cfg)
with_defaults (inr e) = inr e

-- `Load`, of a file that can be read.
unfoldable pub load : (String → String) → (String → Config ⊎ String) → String → Config ⊎ String
unfolding with_defaults
load expand unmarshal text' = with_defaults (unmarshal (expand text'))
