-- ===== src/Circuit/Tests.antt =====
-- A breaker on concrete calls, and its theorems applied to them
-- (apps/engine/internal/circuit/breaker.go).
use infrawatch.Circuit.Registry
use infrawatch.Circuit.Registry.{Registry, get, breaker_config, get_lem, reset_lem}
use infrawatch.Config.Samples.{circuit_config}
use infrawatch.Prelude.Map.{lookup}
use infrawatch.Prelude.{
  String, ◌≢◌, none, some, is_some, ◌≡◌, refl, ◌<◌, ◌⊎◌, true, false, List, [], ◌∷◌, arith, map,
  ◌↔◌, ◌+◌, length,
}
use infrawatch.Prelude.Int.{pos, ◌≤ℤ◌}
use infrawatch.Prelude.Time.{Instant, since, seconds}
use infrawatch.Circuit.Breaker.{
  closed, opened, half_open, BreakerConfig, Breaker, new_breaker, is_open, record_failure,
}
use infrawatch.Circuit.Breaker.Invariant.{
  gate, success, failure, run, IsValid, run-new_breaker-IsValid, new_breaker-IsValid,
}
use infrawatch.Circuit.Breaker.Protocol.{is_open_lem, failures_trip, recovers, relapse}

-- The defaults of the configuration, with two successes to close.
abbrev settings : BreakerConfig
settings = record {
  failure_threshold = pos 3;
  success_threshold = pos 2;
  timeout = pos (seconds 30);
}

abbrev failed_at : List Instant
failed_at = 5 ∷ 6 ∷ 7 ∷ []

-- Opened by a failure at time 7.
abbrev tripped : Breaker
tripped = record (new_breaker settings) {
  state = opened;
  consecutive_fails = 3;
  opened_at = 7;
  last_transition = 7;
}

abbrev probing : Breaker
probing = record (new_breaker settings) { state = half_open }

three_failures_trip : run (new_breaker settings) (map failure failed_at) ≡ tripped
unfolding run new_breaker
three_failures_trip = refl

tripped-IsValid : IsValid settings tripped
unfolding new_breaker
tripped-IsValid = ground arith

run-new_breaker-IsValid_example :
    IsValid settings (run (new_breaker settings) (failure 5 ∷ success 6 ∷ failure 7 ∷ []))
run-new_breaker-IsValid_example =
    run-new_breaker-IsValid settings (failure 5 ∷ success 6 ∷ failure 7 ∷ []) (omega arith)

is_open_lem_example :
    (((is_open tripped 8).1 ≡ true)
      ↔ ((tripped.state ≡ opened) × ¬ (tripped.cfg.timeout ≤ℤ since 8 tripped.opened_at)))
    × ((is_open tripped 8).1 ≡ true → (is_open tripped 8).0 ≡ tripped)
    × ((is_open tripped 8).1 ≡ false → ¬ ((is_open tripped 8).0.state ≡ opened))
is_open_lem_example = is_open_lem tripped 8

failures_trip_example : ((run (new_breaker settings) (map failure failed_at)).state ≡ opened) ↔ (
    settings.failure_threshold ≤ℤ pos ((new_breaker settings).consecutive_fails + length failed_at))
unfolding new_breaker
failures_trip_example =
    failures_trip settings (new_breaker settings) failed_at
      (new_breaker-IsValid settings (omega arith)) refl

recovers_example :
    ((is_open tripped (seconds 31)).1 ≡ false)
    × (((run tripped (gate (seconds 31) ∷ map success (8 ∷ 9 ∷ []))).state ≡ closed) ↔ (
        (0 < length {A = Instant} (8 ∷ 9 ∷ []))
        × (settings.success_threshold ≤ℤ pos (length {A = Instant} (8 ∷ 9 ∷ [])))))
recovers_example =
    recovers settings tripped (seconds 31) (8 ∷ 9 ∷ []) tripped-IsValid refl (omega arith)

relapse_example : (is_open (record_failure probing 40) 41).1 ≡ true
unfolding new_breaker
relapse_example = relapse probing 40 41 refl (omega arith)

abbrev name_of_db : String
name_of_db = "db"

abbrev registry : Registry
registry = record { breakers = ("db", tripped) ∷ []; cfg = circuit_config }

get_lem_example :
    let (r, b) = get registry "web" in
    (lookup "web" r.breakers ≡ some b)
    × ((lookup "web" registry.breakers ≡ some b)
        ⊎ ((lookup "web" registry.breakers ≡ none)
            × (b ≡ new_breaker (breaker_config circuit_config))))
    × (◌≢◌ {A = String} "web" name_of_db
        → lookup name_of_db r.breakers ≡ lookup name_of_db registry.breakers)
get_lem_example = get_lem registry "web" name_of_db

reset_lem_example :
    let (r, found) = Registry.reset registry name_of_db 9 in
    (found ≡ is_some (lookup name_of_db registry.breakers))
    × ((b : Breaker)
        → lookup name_of_db r.breakers ≡ some b
        → (b.state ≡ closed) × (b.consecutive_fails ≡ 0) × (b.consecutive_ok ≡ 0))
    × (name_of_db ≢ "web" → lookup "web" r.breakers ≡ lookup "web" registry.breakers)
    × (lookup name_of_db registry.breakers ≡ none → r ≡ registry)
reset_lem_example = reset_lem registry name_of_db "web" 9
