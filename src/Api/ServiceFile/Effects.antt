-- ===== src/Api/ServiceFile/Effects.antt =====
-- What a request leaves behind: the handlers of apps/api/handlers/config_services.go against a relation
-- between the configuration before, the configuration after, and the command for the engine.
use infrawatch.Prelude.{
  ◌≡◌, refl, sym, ap, subst, ◌∙◌, ◌⊎◌, inl, inr, ℕ, String, true, List, [], ◌∷◌, ◌++◌, Option, none,
  some, Option-cases, Bool-cases, arith, str_eq, eq_iff, leb, is_some,
}
use infrawatch.Prelude.Time.{Instant, seconds}
use infrawatch.Prelude.Int.{ℤ, pos}
use infrawatch.Config.{ServiceConfig, Config}
use infrawatch.Config.Defaults.{apply_defaults}
use infrawatch.Config.Validator.{Problem, validate}
use infrawatch.Api.ServiceFile.{
  UpsertRequest, Libraries, Weather, Fault, creating, closing, renaming, writing, Disk, Command,
  World, Response,
}
use infrawatch.Api.ServiceFile.Request.{
  duration_or, request_error, with_durations, request_to_service,
}
use infrawatch.Api.ServiceFile.Persist.{
  service_index, set_at, delete_at, load_config_file, announce, validate_for_persist, replace_file,
  save_config_file, save_text, finish, persist, update_disk,
}
use infrawatch.Api.ServiceFile.Handlers.{
  upsert_command, delete_command, with_service, named, create, create_loaded, update_loaded,
  delete_loaded, create_found, create_service, update, update_found, update_service, delete_found,
  delete_service, Call, post, put, remove, handle,
}
use infrawatch.Api.ServiceFile.Agree.{stored, validate-stored}
use infrawatch.Api.ServiceFile.Accepted.{RoundTrips}
pub mod Saving
pub mod Handled

-- What one request may make of a configuration, and the command that it sends.
pub data Change : Config → Config → Command → Type 0 where
  adds :
      (cfg : Config) (svc : ServiceConfig) (now : Instant)
      → service_index cfg.services svc.name ≡ none
      → Change cfg (stored (with_service cfg svc)) (upsert_command svc now)
  replaces :
      (cfg : Config) (svc : ServiceConfig) (i : ℕ) (now : Instant)
      → service_index cfg.services svc.name ≡ some i
      → Change cfg
          (stored (record cfg { services = set_at i svc cfg.services }))
          (upsert_command svc now)
  removes :
      (cfg : Config) (name : String) (i : ℕ) (now : Instant)
      → service_index cfg.services name ≡ some i
      → Change cfg
          (stored (record cfg { services = delete_at i cfg.services }))
          (delete_command name now)

-- The request is refused: an error is answered, and the file, the commands and the audits are as before.
pub record IsRefused (w : World) (after : World × Response) : Type 0 where
  pub error : leb 400 after.1.status ≡ true
  pub kept : after.0.disk.config ≡ w.disk.config
  pub silent : after.0.commands ≡ w.commands
  pub unaudited : after.0.audits ≡ w.audits

-- The file holds, read as it stands, the new configuration, in which the engine's validation finds no problem once it has the
-- engine's defaults, and the command is sent, or Redis refused it.
pub record IsDone (lib : Libraries) (env : Weather) (cfg : Config) (cmd : Command) (w : World)
    (after : World × Response) : Type 0 where
  pub saved : lib.unmarshal after.0.disk.config ≡ inl cfg
  pub accepted : validate lib.scheme (apply_defaults cfg) ≡ []
  pub sent :
      ((env.redis_down ≡ none)
        × (after.0.commands ≡ w.commands ++ cmd ∷ [])
        × (leb after.1.status 201 ≡ true))
      ⊎ ((is_some env.redis_down ≡ true)
          × (after.0.commands ≡ w.commands)
          × (after.0.audits ≡ w.audits)
          × (after.1.status ≡ 202))

abbrev pub Effect : Libraries → Weather → World → World × Response → Type 0
Effect lib env w after =
    IsRefused w after
    ⊎ ((old : Config) × (new : Config) × (cmd : Command) × (lib.unmarshal w.disk.config ≡ inl old)
        × Change old new cmd
        × IsDone lib env new cmd w after)
