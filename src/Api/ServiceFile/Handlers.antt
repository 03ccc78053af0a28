-- ===== src/Api/ServiceFile/Handlers.antt =====
-- The handlers of apps/api/handlers/config_services.go.
use infrawatch.Prelude.{
  ℕ, String, not, List, [], ◌∷◌, ◌++◌, Option, none, some, ◌⊎◌, inl, inr, str_eq, length,
  if◌then◌else◌,
}
use infrawatch.Prelude.Time.{Instant}
use infrawatch.Config.{ServiceConfig, Config}
use infrawatch.Config.Defaults.{text_or}
use infrawatch.Api.ServiceFile.{
  UpsertRequest, Libraries, Weather, Command, World, failure, listing, applied, removed, Response,
  answer, zero_service,
}
use infrawatch.Api.ServiceFile.Request.{request_to_service}
use infrawatch.Api.ServiceFile.Persist.{
  service_index, set_at, delete_at, load_config_file, announce, persist,
}

abbrev pub upsert_command : ServiceConfig → Instant → Command
upsert_command svc now = record {
  action = "upsert";
  service_name = svc.name;
  service = svc;
  timestamp = now;
}

abbrev pub delete_command : String → Instant → Command
delete_command name now = record {
  action = "delete";
  service_name = name;
  service = zero_service;
  timestamp = now;
}

abbrev pub with_service : Config → ServiceConfig → Config
with_service cfg svc = record cfg { services = cfg.services ++ svc ∷ [] }

-- `List`.
unfoldable pub list_services : Libraries → Weather → World → Response
list_services lib env w = elim (load_config_file lib env w.disk) [
  | inr e ↦ answer 500 (failure e)
  | inl cfg ↦ answer 200 (listing cfg.services (length cfg.services))
]

unfoldable pub create_found :
    Libraries → Weather → ServiceConfig → Config → Option ℕ → World → World × Response
create_found lib env svc cfg (some i) w = (w, answer 409 (failure svc.name))
create_found lib env svc cfg none w = persist lib env (with_service cfg svc) w (
    announce env (upsert_command svc env.now) "service persisted, but runtime apply command failed"
      "create" (some svc) (answer 201 (applied svc)))

unfoldable pub create_loaded :
    Libraries → Weather → ServiceConfig → Config ⊎ String → World → World × Response
create_loaded lib env svc (inr e) w = (w, answer 500 (failure e))
create_loaded lib env svc (inl cfg) w =
    create_found lib env svc cfg (service_index cfg.services svc.name) w

unfoldable pub create_service :
    Libraries → Weather → ServiceConfig ⊎ String → World → World × Response
create_service lib env (inr e) w = (w, answer 400 (failure e))
create_service lib env (inl svc) w = create_loaded lib env svc (load_config_file lib env w.disk) w

-- `Create`, from the request's JSON, none if it is invalid.
unfoldable pub create : Libraries → Weather → Option UpsertRequest → World → World × Response
create lib env none w = (w, answer 400 (failure "invalid JSON"))
create lib env (some req) w = create_service lib env (request_to_service lib req) w

unfoldable pub update_found :
    Libraries → Weather → String → ServiceConfig → Config → Option ℕ → World → World × Response
update_found lib env target svc cfg none w = (w, answer 404 (failure target))
update_found lib env target svc cfg (some i) w =
    persist lib env (record cfg { services = set_at i svc cfg.services }) w
      (announce env (upsert_command svc env.now)
        "service updated in YAML, but runtime apply command failed" "update" (some svc)
        (answer 200 (applied svc)))

unfoldable pub update_loaded :
    Libraries → Weather → String → ServiceConfig → Config ⊎ String → World → World × Response
update_loaded lib env target svc (inr e) w = (w, answer 500 (failure e))
update_loaded lib env target svc (inl cfg) w =
    update_found lib env target svc cfg (service_index cfg.services target) w

unfoldable pub update_service :
    Libraries → Weather → String → ServiceConfig ⊎ String → World → World × Response
update_service lib env target (inr e) w = (w, answer 400 (failure e))
update_service lib env target (inl svc) w =
    update_loaded lib env target svc (load_config_file lib env w.disk) w

-- The request with the name of the path, where it has none.
abbrev pub named : String → UpsertRequest → UpsertRequest
named target req = record req { name = text_or target req.name }

-- `Update`.
unfoldable pub update :
    Libraries → Weather → String → Option UpsertRequest → World → World × Response
update lib env target none w = (w, answer 400 (failure "invalid JSON"))
update lib env target (some req) w =
    if not (str_eq (named target req).name target)
    then (w, answer 400 (failure "service name in body must match path parameter"))
    else update_service lib env target (request_to_service lib (named target req)) w

unfoldable pub delete_found :
    Libraries → Weather → String → Config → Option ℕ → World → World × Response
delete_found lib env target cfg none w = (w, answer 404 (failure target))
delete_found lib env target cfg (some i) w =
    persist lib env (record cfg { services = delete_at i cfg.services }) w
      (announce env (delete_command target env.now)
        "service removed from YAML, but runtime apply command failed" "delete" none
        (answer 200 (removed target)))

unfoldable pub delete_loaded :
    Libraries → Weather → String → Config ⊎ String → World → World × Response
delete_loaded lib env target (inr e) w = (w, answer 500 (failure e))
delete_loaded lib env target (inl cfg) w =
    delete_found lib env target cfg (service_index cfg.services target) w

-- `Delete`.
unfoldable pub delete_service : Libraries → Weather → String → World → World × Response
delete_service lib env target w = delete_loaded lib env target (load_config_file lib env w.disk) w

-- The requests that change the file, and one of them.
pub data Call : Type 0 where
  post : Option UpsertRequest → Call
  put : String → Option UpsertRequest → Call
  remove : String → Call

unfoldable pub handle : Libraries → Weather → Call → World → World × Response
handle lib env (post req) w = create lib env req w
handle lib env (put target req) w = update lib env target req w
handle lib env (remove target) w = delete_service lib env target w

-- Any requests, one after another.
unfoldable pub handle_all : Libraries → List (Weather × Call) → World → World
handle_all lib [] w = w
handle_all lib ((env, call) ∷ calls) w = handle_all lib calls (handle lib env call w).0
