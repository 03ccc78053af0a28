-- ===== src/Engine/Mirror.antt =====
-- The API's configuration file (apps/api/handlers/config_services.go) and the services that the engine
-- polls (apps/engine/cmd/main.go, apps/engine/internal/health/poller.go) after the same requests.
use infrawatch.Prelude.{
  ◌≡◌, refl, sym, ap, subst, ◌∙◌, inl, inr, String, Bool, true, false, List, [], ◌∷◌, ◌++◌, Option,
  none, some, All, Bool-cases, arith, str_eq, eq_iff, inl_inj, if◌then◌else◌,
}
use infrawatch.Config.{ServiceConfig, Config}
use infrawatch.Config.Defaults.{service_defaults, services_defaults, apply_defaults}
use infrawatch.Config.Validator.{validate}
use infrawatch.Config.Validator.Sound.{AreFresh, IsSound, validate-IsSound}
use infrawatch.Health.Poller.{Poller, find_service, upsert_service, remove_service}
use infrawatch.Health.Poller.Loops.{find-update_services, find-without}
use infrawatch.Api.ServiceFile.{Libraries, Weather, Command, World}
use infrawatch.Api.ServiceFile.Persist.{service_index, set_at, delete_at}
use infrawatch.Api.ServiceFile.Handlers.{Call, handle, handle_all, with_service}
use infrawatch.Api.ServiceFile.Agree.{stored, services_agree}
use infrawatch.Api.ServiceFile.Accepted.{RoundTrips}
use infrawatch.Api.ServiceFile.Effects.{Change, adds, replaces, removes}
use infrawatch.Api.ServiceFile.Effects.Handled.{handle-Effect}
use infrawatch.Engine.{apply_command, apply_commands}
use mathlib.Core.Option.{map as option_map}
use infrawatch.Engine.Lookups.{
  shown, index-none, find-append, find-set_at, find-delete_at, fresh-services_defaults, index-named,
  shown-services_defaults,
}

shown-stored :
    (cfg : Config) (name : String) → shown (stored cfg).services name ≡ shown cfg.services name
shown-stored cfg name =
    ap (λ ss. shown ss name) (services_agree cfg.services)
    ∙ shown-services_defaults cfg.services name

same_else :
    (b : Bool) (o q r : Option ServiceConfig)
    → option_map service_defaults q ≡ option_map service_defaults r
    → option_map service_defaults (if b then o else q)
      ≡ option_map service_defaults (if b then o else r)
same_else true o q r h = refl
same_else false o q r h = h

-- The command for a change makes the same change to the engine's services.
Change-shown :
    (scheme : String → Option String) (p : Poller) (old new : Config) (cmd : Command)
    → Change old new cmd
    → AreFresh [] old.services
    → All (IsSound scheme) (services_defaults old.services)
    → ((name : String) → shown p.services name ≡ shown old.services name)
    → (name : String) → shown (apply_command p cmd).services name ≡ shown new.services name
unfolding apply_command upsert_service remove_service
Change-shown scheme p old new cmd (adds cfg svc now h) f s m name =
    ap (option_map service_defaults) (find-update_services name p.services svc)
    ∙ same_else (str_eq svc.name name) (some svc) (find_service name p.services)
        (find_service name cfg.services) (m name)
    ∙ sym (
        shown-stored (with_service cfg svc) name
        ∙ ap (option_map service_defaults)
            (find-append cfg.services svc name (index-none cfg.services svc.name h)))
Change-shown scheme p old new cmd (replaces cfg svc i now h) f s m name =
    ap (option_map service_defaults) (find-update_services name p.services svc)
    ∙ same_else (str_eq svc.name name) (some svc) (find_service name p.services)
        (find_service name cfg.services) (m name)
    ∙ sym (
        shown-stored (record cfg { services = set_at i svc cfg.services }) name
        ∙ ap (option_map service_defaults) (find-set_at cfg.services i svc name h))
Change-shown scheme p old new cmd (removes cfg gone i now h) f s m name =
    elim (Bool-cases (str_eq gone "")) [
      | inl e ↦ absurd (
          ground (
            arith,
            h,
            index-named scheme cfg.services s,
            ap (service_index cfg.services) ((eq_iff gone "").0 e),
          ))
      | inr e ↦
          rw (e, e)
            (ap (option_map service_defaults) (find-without name gone p.services)
              ∙ same_else (str_eq gone name) none (find_service name p.services)
                  (find_service name cfg.services) (m name)
              ∙ sym (
                  shown-stored (record cfg { services = delete_at i cfg.services }) name
                  ∙ ap (option_map service_defaults)
                      (find-delete_at [] cfg.services i gone name f h)))
    ]

apply_commands-append :
    (p : Poller) (commands : List Command) (cmd : Command)
    → apply_commands p (commands ++ cmd ∷ []) ≡ apply_command (apply_commands p commands) cmd
unfolding apply_commands
apply_commands-append p [] cmd = refl
apply_commands-append p (c ∷ commands) cmd = apply_commands-append (apply_command p c) commands cmd

-- The services of a configuration without a problem have distinct names that are not empty.
accepted-fresh :
    (lib : Libraries) (cfg : Config)
    → validate lib.scheme (apply_defaults cfg) ≡ []
    → AreFresh [] cfg.services × All (IsSound lib.scheme) (services_defaults cfg.services)
unfolding apply_defaults
accepted-fresh lib cfg v =
    let (f, s) = validate-IsSound lib.scheme (apply_defaults cfg) v in
    (fresh-services_defaults [] cfg.services f, s)

-- The file holds, read as it stands, a configuration in which the engine's validation finds no problem, and the engine, having
-- applied the commands so far, knows of the file's services what the file says of them, with the defaults.
abbrev pub Mirrors : Libraries → Poller → World → Type 0
Mirrors lib p w =
    (cfg : Config) × (lib.unmarshal w.disk.config ≡ inl cfg)
    × (validate lib.scheme (apply_defaults cfg) ≡ [])
    × ((name : String)
        → shown (apply_commands p w.commands).services name ≡ shown cfg.services name)

handle-Mirrors :
    (lib : Libraries) (r : RoundTrips lib) (p : Poller) (env : Weather) (call : Call) (w : World)
    → env.redis_down ≡ none
    → Mirrors lib p w
    → Mirrors lib p (handle lib env call w).0
handle-Mirrors lib r p env call w up (cfg, u, v, m) = elim (handle-Effect lib env call w r) [
  | inl h ↦ (
    cfg,
    ap lib.unmarshal h.kept ∙ u,
    v,
    subst
        (λ cs.
          (name : String) → shown (apply_commands p cs).services name ≡ shown cfg.services name)
        (sym h.silent) m,
  )
  | inr (old, new, cmd, u', c, d) ↦
      let same = inl_inj {B = String} cfg old (sym u ∙ u') in
      let (f, s) =
        accepted-fresh lib old (subst (λ k. validate lib.scheme (apply_defaults k) ≡ []) same v) in
      let before = λ (name : String). m name ∙ ap (λ k. shown k.services name) same in
      elim d.sent [
        | inl (_, cs, _) ↦ (
          new,
          d.saved,
          d.accepted,
          λ name.
              ap (λ k. shown k.services name)
                (ap (apply_commands p) cs ∙ apply_commands-append p w.commands cmd)
              ∙ Change-shown lib.scheme (apply_commands p w.commands) old new cmd c f s before name,
        )
        | inr (e, _, _, _) ↦ absurd (ground (arith, up, e))
      ]
]

-- A file that holds a configuration in which the engine's validation finds no problem, and whose services the engine has, stays so, after any requests to create, update or delete services:
-- for each name the engine, having applied the commands, looks up the service of the file, up to the defaults. Redis takes the commands, reading and
-- writing the file may fail. Files are read here as they stand, environment variables not expanded; one that was written is read as what was written, but for missing state
-- rules, which are read as empty.
pub handle_all-Mirrors :
    (lib : Libraries) (p : Poller) (calls : List (Weather × Call)) (w : World)
    → RoundTrips lib
    → All (λ c. c.0.redis_down ≡ none) calls
    → Mirrors lib p w
    → Mirrors lib p (handle_all lib calls w)
unfolding handle_all
handle_all-Mirrors lib p [] w r up m = m
handle_all-Mirrors lib p ((env, call) ∷ calls) w r up m =
    handle_all-Mirrors lib p calls (handle lib env call w).0 r up.1
      (handle-Mirrors lib r p env call w up.0 m)
