-- ===== src/Circuit/Registry.antt =====
-- apps/engine/internal/circuit/registry.go: the breakers by service name. `Get` returns a pointer to
-- the breaker in the map; a caller that changes the breaker writes it back with `put`.
use infrawatch.Prelude.{
  ◌≡◌, ◌≢◌, ◌⊎◌, inl, inr, String, Bool, true, false, Option, none, some, [], ◌∷◌, arith, is_some,
  Option-cases, refl,
}
use infrawatch.Prelude.Map.{Map, lookup, insert, lookup-insert_self, lookup-insert_ne}
use infrawatch.Prelude.Time.{Instant}
use infrawatch.Config.{CircuitConfig}
use infrawatch.Circuit.Breaker
use infrawatch.Circuit.Breaker.{Breaker, BreakerConfig, BreakerSnapshot, closed, new_breaker}

pub record Registry : Type 0 where
  pub breakers : Map Breaker
  pub cfg : CircuitConfig

unfoldable pub new_registry : CircuitConfig → Registry
new_registry cfg = record { breakers = []; cfg = cfg }

unfoldable pub breaker_config : CircuitConfig → BreakerConfig
breaker_config c = record {
  failure_threshold = c.failure_threshold;
  success_threshold = c.success_threshold;
  timeout = c.timeout;
}

unfoldable pub put : Registry → String → Breaker → Registry
put r name b = record r { breakers = insert name b r.breakers }

get_found : Registry → String → Option Breaker → Registry × Breaker
get_found r name (some b) = (r, b)
get_found r name none = let b = new_breaker (breaker_config r.cfg) in (put r name b, b)

-- `Get`: the breaker of a service, made on first use.
unfoldable pub get : Registry → String → Registry × Breaker
unfolding get_found put
get r name = get_found r name (lookup name r.breakers)

reset_found : Registry → String → Instant → Option Breaker → Registry × Bool
reset_found r name now none = (r, false)
reset_found r name now (some b) = (put r name (Breaker.reset b now), true)

-- `Reset`: false for a service that has no breaker.
unfoldable pub reset : Registry → String → Instant → Registry × Bool
unfolding reset_found put
reset r name now = reset_found r name now (lookup name r.breakers)

snapshots : Map Breaker → Map BreakerSnapshot
snapshots [] = []
snapshots ((name, b) ∷ m) = (name, Breaker.snapshot b) ∷ snapshots m

unfoldable pub all_snapshots : Registry → Map BreakerSnapshot
unfolding snapshots
all_snapshots r = snapshots r.breakers

-- `Get` returns the breaker that the registry then holds for the service: the one it held before,
-- or a new one with the registry's settings. It changes no other service's breaker.
pub get_lem :
    (r : Registry) (name other : String)
    → (lookup name (get r name).0.breakers ≡ some (get r name).1)
      × ((lookup name r.breakers ≡ some (get r name).1)
          ⊎ ((lookup name r.breakers ≡ none)
              × ((get r name).1 ≡ new_breaker (breaker_config r.cfg))))
      × (name ≢ other → lookup other (get r name).0.breakers ≡ lookup other r.breakers)
unfolding get
get_lem r name other = elim (Option-cases (lookup name r.breakers)) [
  | inl e ↦
      rw (e, get_found)
        (
          lookup-insert_self name _ r.breakers,
          inr (refl, refl),
          λ h. lookup-insert_ne other name _ r.breakers h,
        )
  | inr (b, e) ↦ rw (e, get_found) (e, inl refl, λ h. refl)
]

-- `Reset` answers whether the service has a breaker. If it has, that breaker is then closed with its
-- counts at zero; every other breaker, and an unknown service's registry, are unchanged.
pub reset_lem :
    (r : Registry) (name other : String) (now : Instant)
    → ((reset r name now).1 ≡ is_some (lookup name r.breakers))
      × ((b : Breaker)
          → lookup name (reset r name now).0.breakers ≡ some b
          → (b.state ≡ closed) × (b.consecutive_fails ≡ 0) × (b.consecutive_ok ≡ 0))
      × (name ≢ other → lookup other (reset r name now).0.breakers ≡ lookup other r.breakers)
      × (lookup name r.breakers ≡ none → (reset r name now).0 ≡ r)
unfolding reset Breaker.reset
reset_lem r name other now = elim (Option-cases (lookup name r.breakers)) [
  | inl e ↦ rw (e, reset_found) (refl, λ b h. cc (e), λ h. refl, λ h. refl)
  | inr (b, e) ↦
      rw (e, reset_found)
        (
          refl,
          λ c h. ground (arith, lookup-insert_self name (Breaker.reset b now) r.breakers),
          λ h. lookup-insert_ne other name _ r.breakers h,
          λ h. cc,
        )
]
