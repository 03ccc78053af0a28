-- ===== src/Healing/Fallback.antt =====
-- apps/engine/internal/healing/fallback.go: the registry of active fallbacks, and the two soft
-- healing actions. Posting to a webhook is the parameter `post`, which gives the error of a failed
-- request; an action returns the URLs that it posted to, in order. The errors of the source are
-- texts; here they are data.
use infrawatch.Prelude.{
  ◌≡◌, refl, ◌∙◌, ◌≢◌, String, Bool, true, false, List, [], ◌∷◌, Option, none, some, arith, str_eq,
  if◌then◌else◌, eq_iff,
}
use infrawatch.Prelude.Int.{ℤ}
use infrawatch.Prelude.Map.{
  Map, lookup, insert, delete, lookup-insert_self, lookup-insert_ne, lookup-delete_self,
  lookup-delete_ne,
}
use infrawatch.Prelude.Time.{Instant}
use infrawatch.Config.{ServiceConfig}

pub data HealError : Type 0 where
  healing_disabled : HealError
  attempts_exhausted : ℤ → String → HealError
  no_actions all_failed fallback_url_unset webhook_unset : String → HealError
  post_failed outside : String → HealError

pub record HealResult : Type 0 where
  pub action : String
  pub success : Bool
  pub error : Option HealError
  pub timestamp : Instant

abbrev pub failed : String → HealError → Instant → HealResult
failed action e now = record { action = action; success = false; error = some e; timestamp = now }

abbrev pub succeeded : String → Instant → HealResult
succeeded action now = record { action = action; success = true; error = none; timestamp = now }

-- Active fallback URLs by service name.
abbrev pub Fallbacks : Type 0
Fallbacks = Map String

unfoldable pub get_active_fallback : Fallbacks → String → Option String
get_active_fallback m name = lookup name m

unfoldable pub clear_fallback : Fallbacks → String → Fallbacks
clear_fallback m name = delete name m

unfoldable pub all_fallbacks : Fallbacks → Fallbacks
all_fallbacks m = m

-- `Reroute`. A failing notification does not matter.
unfoldable pub reroute : Fallbacks → ServiceConfig → Instant → Fallbacks × List String × HealResult
reroute m svc now =
    if str_eq svc.fallback_url ""
    then (m, [], failed "fallback" (fallback_url_unset svc.name) now)
    else (
      insert svc.name svc.fallback_url m,
      if str_eq svc.healing_webhook "" then [] else svc.healing_webhook ∷ [],
      succeeded "fallback" now,
    )

posted : Option String → Instant → HealResult
posted none now = succeeded "webhook" now
posted (some e) now = failed "webhook" (post_failed e) now

-- `Webhook`.
unfoldable pub webhook :
    (String → Option String) → ServiceConfig → Instant → List String × HealResult
unfolding posted
webhook post svc now =
    if str_eq svc.healing_webhook ""
    then ([], failed "webhook" (webhook_unset svc.name) now)
    else (svc.healing_webhook ∷ [], posted (post svc.healing_webhook) now)

-- A reroute of a service with a fallback URL succeeds; the URL is then the service's active fallback,
-- until it is cleared; and other services keep their fallbacks in both.
pub reroute_lem :
    (m : Fallbacks) (svc : ServiceConfig) (now : Instant) (other : String)
    → svc.fallback_url ≢ ""
    → let (m', posts, result) = reroute m svc now in
      (result.success ≡ true)
      × (get_active_fallback m' svc.name ≡ some svc.fallback_url)
      × (get_active_fallback (clear_fallback m' svc.name) svc.name ≡ none)
      × (svc.name ≢ other
          → (get_active_fallback m' other ≡ get_active_fallback m other)
            × (get_active_fallback (clear_fallback m' svc.name) other
                ≡ get_active_fallback m other))
unfolding reroute get_active_fallback clear_fallback
reroute_lem m svc now other set =
    let differ : str_eq svc.fallback_url "" ≡ false = ground (arith, eq_iff svc.fallback_url "") in
    let m' = insert svc.name svc.fallback_url m in
    rw differ (
      refl,
      lookup-insert_self svc.name svc.fallback_url m,
      lookup-delete_self svc.name m',
      λ h.
          let kept = lookup-insert_ne other svc.name svc.fallback_url m h in
          (kept, lookup-delete_ne other svc.name m' h ∙ kept),
    )
