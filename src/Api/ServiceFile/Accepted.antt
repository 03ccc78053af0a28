-- ===== src/Api/ServiceFile/Accepted.antt =====
-- The file that the handlers of apps/api/handlers/config_services.go leave, and the engine's loading of it.
use infrawatch.Prelude.{
  ◌≡◌, refl, sym, subst, ◌∙◌, ◌⊎◌, inl, inr, ℕ, String, List, [], ◌∷◌, Option, none, some,
  Option-cases, Bool-cases, arith, str_eq,
}
use infrawatch.Config.{ServiceConfig, Config}
use infrawatch.Config.Defaults.{apply_defaults}
use infrawatch.Config.Validator.{Problem, validate}
use infrawatch.Api.ServiceFile.{
  Libraries, Weather, Fault, creating, closing, renaming, writing, Disk, Command, World, Response,
}
use infrawatch.Api.ServiceFile.Request.{request_to_service}
use infrawatch.Api.ServiceFile.Persist.{
  service_index, load_config_file, announce, validate_for_persist, replace_file, save_config_file,
  save_text, finish, persist, update_disk,
}
use infrawatch.Api.ServiceFile.Handlers.{
  named, create, create_loaded, update_loaded, delete_loaded, create_found, create_service, update,
  update_found, update_service, delete_found, delete_service, Call, post, put, remove, handle,
  handle_all,
}
use infrawatch.Api.ServiceFile.Agree.{reread, validate-reread, validate-stored}
use infrawatch.Config.Load.{load}

announce-disk :
    (env : Weather) (cmd : Command) (warned action : String) (details : Option ServiceConfig)
    (done : Response) (w : World)
    → (announce env cmd warned action details done w).0.disk ≡ w.disk
unfolding announce
announce-disk env cmd warned action details done w = ground (arith, Option-cases env.redis_down)

-- The file holds, read as it stands, a configuration that has no problem once it has the engine's defaults.
abbrev pub Accepts : Libraries → String → Type 0
Accepts lib text' =
    (cfg : Config) × (lib.unmarshal text' ≡ inl cfg)
    × (validate lib.scheme (apply_defaults cfg) ≡ [])

-- What the library promises: a text that is written is read as what was written, but for state rules
-- that are missing, which are read as empty.
abbrev pub RoundTrips : Libraries → Type 0
RoundTrips lib =
    (cfg : Config) (text' : String)
    → lib.marshal cfg ≡ inl text'
    → lib.unmarshal text' ≡ inl (reread cfg)

-- The engine starts with the file: it loads it, with the environment variables expanded, and finds no
-- problem in it.
abbrev pub Loads : Libraries → String → Type 0
Loads lib text' =
    (cfg : Config) × (load lib.expand lib.unmarshal text' ≡ inl cfg)
    × (validate lib.scheme cfg ≡ [])

abbrev pub IsSafe : Libraries → Disk → Type 0
IsSafe lib disk = Accepts lib disk.config

Accepts-Loads :
    (lib : Libraries) (text' : String)
    → lib.expand text' ≡ text'
    → Accepts lib text'
    → Loads lib text'
unfolding load
Accepts-Loads lib text' plain (cfg, u, v) = (apply_defaults cfg, rw (plain, u) refl, v)

replace_file-IsSafe :
    (lib : Libraries) (fault : Option Fault) (text' : String) (disk : Disk)
    → Accepts lib text'
    → IsSafe lib disk
    → IsSafe lib (replace_file fault text' disk).0
unfolding replace_file
replace_file-IsSafe lib none text' disk a s = a
replace_file-IsSafe lib (some (creating e)) text' disk a s = s
replace_file-IsSafe lib (some (writing stuck part e)) text' disk a s = s
replace_file-IsSafe lib (some (closing stuck e)) text' disk a s = s
replace_file-IsSafe lib (some (renaming stuck e)) text' disk a s = s

save_text-IsSafe :
    (lib : Libraries) (fault : Option Fault) (encoded : String ⊎ String) (disk : Disk)
    → ((text' : String) → encoded ≡ inl text' → Accepts lib text')
    → IsSafe lib disk
    → IsSafe lib (save_text fault encoded disk).0
unfolding save_text
save_text-IsSafe lib fault (inr e) disk a s = s
save_text-IsSafe lib fault (inl text') disk a s =
    replace_file-IsSafe lib fault text' disk (a text' refl) s

finish-IsSafe :
    (lib : Libraries) (problems : List Problem) (saved : Disk × Option String) (w : World)
    (continue : World → World × Response)
    → ((w' : World) → (continue w').0.disk ≡ w'.disk)
    → (problems ≡ [] → IsSafe lib saved.0)
    → IsSafe lib w.disk
    → IsSafe lib (finish problems saved w continue).0.disk
unfolding finish
finish-IsSafe lib (p ∷ ps) saved w continue k h s = s
finish-IsSafe lib [] (disk, some e) w continue k h s = h refl
finish-IsSafe lib [] (disk, none) w continue k h s =
    subst (IsSafe lib) (sym (k (update_disk w disk))) (h refl)

persist-IsSafe :
    (lib : Libraries) (env : Weather) (cfg : Config) (w : World)
    (continue : World → World × Response)
    → RoundTrips lib
    → ((w' : World) → (continue w').0.disk ≡ w'.disk)
    → IsSafe lib w.disk
    → IsSafe lib (persist lib env cfg w continue).0.disk
unfolding persist
persist-IsSafe lib env cfg w continue r k s =
    let (saved, problems) = validate_for_persist lib cfg in
    finish-IsSafe lib problems (save_config_file lib env saved w.disk) w continue k
      (λ h.
        save_text-IsSafe lib env.fault (lib.marshal saved) w.disk
          (λ text' m. (
            reread saved,
            r saved text' m,
            validate-reread lib.scheme saved ∙ sym (validate-stored lib cfg) ∙ h,
          ))
          s)
      s

module _ (lib : Libraries) (r : RoundTrips lib) where
  create_found-IsSafe :
      (env : Weather) (svc : ServiceConfig) (cfg : Config) (i : Option ℕ) (w : World)
      → IsSafe lib w.disk
      → IsSafe lib (create_found lib env svc cfg i w).0.disk
  unfolding create_found
  create_found-IsSafe env svc cfg (some i) w s = s
  create_found-IsSafe env svc cfg none w s =
      persist-IsSafe lib env _ w _ r (λ w'. announce-disk env _ _ _ _ _ w') s

  update_found-IsSafe :
      (env : Weather) (target : String) (svc : ServiceConfig) (cfg : Config) (i : Option ℕ)
      (w : World)
      → IsSafe lib w.disk
      → IsSafe lib (update_found lib env target svc cfg i w).0.disk
  unfolding update_found
  update_found-IsSafe env target svc cfg none w s = s
  update_found-IsSafe env target svc cfg (some i) w s =
      persist-IsSafe lib env _ w _ r (λ w'. announce-disk env _ _ _ _ _ w') s

  delete_found-IsSafe :
      (env : Weather) (target : String) (cfg : Config) (i : Option ℕ) (w : World)
      → IsSafe lib w.disk
      → IsSafe lib (delete_found lib env target cfg i w).0.disk
  unfolding delete_found
  delete_found-IsSafe env target cfg none w s = s
  delete_found-IsSafe env target cfg (some i) w s =
      persist-IsSafe lib env _ w _ r (λ w'. announce-disk env _ _ _ _ _ w') s

  create_loaded-IsSafe :
      (env : Weather) (svc : ServiceConfig) (loaded : Config ⊎ String) (w : World)
      → IsSafe lib w.disk
      → IsSafe lib (create_loaded lib env svc loaded w).0.disk
  unfolding create_loaded
  create_loaded-IsSafe env svc (inr e) w s = s
  create_loaded-IsSafe env svc (inl cfg) w s =
      create_found-IsSafe env svc cfg (service_index cfg.services svc.name) w s

  update_loaded-IsSafe :
      (env : Weather) (target : String) (svc : ServiceConfig) (loaded : Config ⊎ String) (w : World)
      → IsSafe lib w.disk
      → IsSafe lib (update_loaded lib env target svc loaded w).0.disk
  unfolding update_loaded
  update_loaded-IsSafe env target svc (inr e) w s = s
  update_loaded-IsSafe env target svc (inl cfg) w s =
      update_found-IsSafe env target svc cfg (service_index cfg.services target) w s

  delete_loaded-IsSafe :
      (env : Weather) (target : String) (loaded : Config ⊎ String) (w : World)
      → IsSafe lib w.disk
      → IsSafe lib (delete_loaded lib env target loaded w).0.disk
  unfolding delete_loaded
  delete_loaded-IsSafe env target (inr e) w s = s
  delete_loaded-IsSafe env target (inl cfg) w s =
      delete_found-IsSafe env target cfg (service_index cfg.services target) w s

  create_service-IsSafe :
      (env : Weather) (described : ServiceConfig ⊎ String) (w : World)
      → IsSafe lib w.disk
      → IsSafe lib (create_service lib env described w).0.disk
  unfolding create_service
  create_service-IsSafe env (inr e) w s = s
  create_service-IsSafe env (inl svc) w s =
      create_loaded-IsSafe env svc (load_config_file lib env w.disk) w s

  update_service-IsSafe :
      (env : Weather) (target : String) (described : ServiceConfig ⊎ String) (w : World)
      → IsSafe lib w.disk
      → IsSafe lib (update_service lib env target described w).0.disk
  unfolding update_service
  update_service-IsSafe env target (inr e) w s = s
  update_service-IsSafe env target (inl svc) w s =
      update_loaded-IsSafe env target svc (load_config_file lib env w.disk) w s

  handle-IsSafe :
      (env : Weather) (call : Call) (w : World)
      → IsSafe lib w.disk
      → IsSafe lib (handle lib env call w).0.disk
  unfolding handle create update delete_service
  handle-IsSafe env (post none) w s = s
  handle-IsSafe env (post (some req)) w s =
      create_service-IsSafe env (request_to_service lib req) w s
  handle-IsSafe env (put target none) w s = s
  handle-IsSafe env (put target (some req)) w s =
      elim (Bool-cases (str_eq (named target req).name target)) [
        | inl e ↦
            rw e (update_service-IsSafe env target (request_to_service lib (named target req)) w s)
        | inr e ↦ rw e s
      ]
  handle-IsSafe env (remove target) w s =
      delete_loaded-IsSafe env target (load_config_file lib env w.disk) w s

handle_all-IsSafe :
    (lib : Libraries) (calls : List (Weather × Call)) (w : World)
    → RoundTrips lib
    → IsSafe lib w.disk
    → IsSafe lib (handle_all lib calls w).disk
unfolding handle_all
handle_all-IsSafe lib [] w r s = s
handle_all-IsSafe lib ((env, call) ∷ calls) w r s =
    handle_all-IsSafe lib calls (handle lib env call w).0 r (handle-IsSafe lib r env call w s)

-- If the configuration file, read as it stands, holds a configuration that the engine's validation accepts, then whatever requests create, update or delete
-- services, and whatever fails on the way (reading, encoding or writing the file, removing a temporary one, or sending the command), the engine loads the file
-- afterwards and accepts it, if the expansion of environment variables leaves that file as it is. A file that was
-- written is read as what was written, but for state rules that are missing, which are read as empty.
pub handle_all-Loads :
    (lib : Libraries) (calls : List (Weather × Call)) (w : World)
    → RoundTrips lib
    → Accepts lib w.disk.config
    → lib.expand (handle_all lib calls w).disk.config ≡ (handle_all lib calls w).disk.config
    → Loads lib (handle_all lib calls w).disk.config
handle_all-Loads lib calls w r s plain =
    Accepts-Loads lib (handle_all lib calls w).disk.config plain (handle_all-IsSafe lib calls w r s)
