-- ===== src/Engine/Lookups.antt =====
-- Lookups by name in the services of a configuration, after the changes that the API makes to them
-- (apps/api/handlers/config_services.go).
use infrawatch.Prelude.{
  ◌≡◌, refl, sym, ap, subst, ◌∙◌, ℕ, zero, suc, String, true, List, [], ◌∷◌, ◌++◌, Option, none,
  some, All, Option-cases, arith, str_eq, eq_iff, eq_refl, if◌then◌else◌,
}
use infrawatch.Alerts.Channels.{contains}
use infrawatch.Config.{ServiceConfig}
use infrawatch.Config.Defaults.{service_defaults, services_defaults}
use infrawatch.Config.Defaults.Idempotent.{service_twice}
use infrawatch.Config.Validator.Sound.{AreFresh, IsSound}
use infrawatch.Health.Poller.{find_service}
use infrawatch.Api.ServiceFile.Persist.{service_index, set_at, delete_at}
use mathlib.Core.Option.{map as option_map}

service_defaults-name : (svc : ServiceConfig) → (service_defaults svc).name ≡ svc.name
unfolding service_defaults
service_defaults-name svc = ground arith

-- What a configuration shows of a service, with the defaults.
abbrev pub shown : List ServiceConfig → String → Option ServiceConfig
shown services name = option_map service_defaults (find_service name services)

pub shown-services_defaults :
    (services : List ServiceConfig) (name : String)
    → shown (services_defaults services) name ≡ shown services name
unfolding services_defaults find_service
shown-services_defaults [] name = refl
shown-services_defaults (svc ∷ services) name = ground (
  arith,
  service_twice svc,
  service_defaults-name svc,
  eq_iff svc.name name,
  eq_iff (service_defaults svc).name name,
  shown-services_defaults services name,
)

-- A list of services without a name.
pub index-none :
    (services : List ServiceConfig) (name : String)
    → service_index services name ≡ none
    → find_service name services ≡ none
unfolding service_index find_service
index-none [] name h = refl
index-none (svc ∷ services) name h =
    ground (arith, h, index-none services name, Option-cases (service_index services name))

pub find-append :
    (services : List ServiceConfig) (svc : ServiceConfig) (name : String)
    → find_service svc.name services ≡ none
    → find_service name (services ++ svc ∷ [])
      ≡ (if str_eq svc.name name then some svc else find_service name services)
unfolding find_service
find-append [] svc name h = refl
find-append (s ∷ services) svc name h = ground (
  arith,
  h,
  eq_iff s.name name,
  eq_iff svc.name name,
  eq_iff s.name svc.name,
  find-append services svc name,
)

pub find-set_at :
    (services : List ServiceConfig) (i : ℕ) (svc : ServiceConfig) (name : String)
    → service_index services svc.name ≡ some i
    → find_service name (set_at i svc services)
      ≡ (if str_eq svc.name name then some svc else find_service name services)
unfolding service_index find_service set_at
find-set_at [] i svc name h = absurd (ground (arith, h))
find-set_at (s ∷ services) zero svc name h = ground (
  arith,
  h,
  Option-cases (service_index services svc.name),
  eq_iff s.name svc.name,
  eq_iff svc.name name,
  eq_iff s.name name,
)
find-set_at (s ∷ services) (suc i) svc name h = ground (
  arith,
  h,
  Option-cases (service_index services svc.name),
  eq_iff s.name svc.name,
  eq_iff svc.name name,
  eq_iff s.name name,
  find-set_at services i svc name,
)

fresh-absent :
    (seen : List String) (services : List ServiceConfig) (name : String)
    → AreFresh seen services
    → contains name seen ≡ true
    → find_service name services ≡ none
unfolding find_service
fresh-absent seen [] name f c = refl
fresh-absent seen (svc ∷ services) name f c =
    ground (arith, f.0, c, eq_iff svc.name name, fresh-absent (svc.name ∷ seen) services name f.1)

pub find-delete_at :
    (seen : List String) (services : List ServiceConfig) (i : ℕ) (gone name : String)
    → AreFresh seen services
    → service_index services gone ≡ some i
    → find_service name (delete_at i services)
      ≡ (if str_eq gone name then none else find_service name services)
unfolding service_index find_service delete_at
find-delete_at seen [] i gone name f h = absurd (ground (arith, h))
find-delete_at seen (s ∷ services) zero gone name f h = ground (
  arith,
  h,
  Option-cases (service_index services gone),
  eq_iff s.name gone,
  eq_iff gone name,
  eq_iff s.name name,
  fresh-absent (s.name ∷ seen) services name f.1,
  eq_refl s.name,
)
find-delete_at seen (s ∷ services) (suc i) gone name f h = ground (
  arith,
  h,
  Option-cases (service_index services gone),
  eq_iff s.name gone,
  eq_iff gone name,
  eq_iff s.name name,
  find-delete_at (s.name ∷ seen) services i gone name f.1,
)

pub fresh-services_defaults :
    (seen : List String) (services : List ServiceConfig)
    → AreFresh seen (services_defaults services)
    → AreFresh seen services
unfolding services_defaults
fresh-services_defaults seen [] f = tt
fresh-services_defaults seen (svc ∷ services) f = (
  ap (λ n. contains n seen) (sym (service_defaults-name svc)) ∙ f.0,
  fresh-services_defaults (svc.name ∷ seen) services (
      subst (λ n. AreFresh (n ∷ seen) (services_defaults services)) (service_defaults-name svc)
        f.1),
)

pub index-named :
    (scheme : String → Option String) (services : List ServiceConfig)
    → All (IsSound scheme) (services_defaults services)
    → service_index services "" ≡ none
unfolding services_defaults service_index
index-named scheme [] s = refl
index-named scheme (svc ∷ services) s =
    let rest = index-named scheme services s.1 in
    let named = λ (h : svc.name ≡ ""). s.0.named (service_defaults-name svc ∙ h) in
    ground (arith, rest, named, eq_iff svc.name "")
