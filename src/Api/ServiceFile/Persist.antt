-- ===== src/Api/ServiceFile/Persist.antt =====
-- The configuration file under the handlers of apps/api/handlers/config_services.go: how it is loaded,
-- validated and saved, and what follows a change.
use infrawatch.Prelude.{
  ℕ, zero, suc, Bool, true, false, String, List, [], ◌∷◌, ◌++◌, Option, none, some, ◌⊎◌, inl, inr,
  str_eq, if◌then◌else◌,
}
use infrawatch.Prelude.Int.{pos}
use infrawatch.Prelude.Time.{seconds}
use infrawatch.Config.{ServiceConfig, mode_active, is_passive, Config}
use infrawatch.Config.Defaults.{text_or, number_or}
use infrawatch.Config.Validator.{Problem, validate}
use infrawatch.Api.ServiceFile.{
  Libraries, Fault, creating, writing, closing, renaming, Weather, Disk, Command, World, failure,
  rejected, warning, Response, answer,
}
use mathlib.Core.Option.{map as option_map}

-- `serviceIndex`: none where the code returns -1.
unfoldable pub service_index : List ServiceConfig → String → Option ℕ
service_index [] name = none
service_index (svc ∷ services) name =
    let rest = service_index services name in
    if str_eq svc.name name then some zero else option_map suc rest

-- `services[i] = svc`, and `append(services[:i], services[i+1:]...)`.
unfoldable pub set_at : ℕ → ServiceConfig → List ServiceConfig → List ServiceConfig
set_at i svc [] = []
set_at zero svc (s ∷ services) = svc ∷ services
set_at (suc i) svc (s ∷ services) = s ∷ set_at i svc services

unfoldable pub delete_at : ℕ → List ServiceConfig → List ServiceConfig
delete_at i [] = []
delete_at zero (s ∷ services) = services
delete_at (suc i) (s ∷ services) = s ∷ delete_at i services

-- The defaults that the validation needs, of a service and of the whole.
abbrev pub validation_service : ServiceConfig → ServiceConfig
validation_service svc =
    let timed = record svc {
      mode = text_or mode_active svc.mode;
      interval = number_or (pos (seconds 30)) svc.interval;
      timeout = number_or (pos (seconds 5)) svc.timeout;
    } in
    if is_passive timed then timed else record timed {
      method = text_or "GET" svc.method;
      expect_status = number_or (pos 200) svc.expect_status;
    }

unfoldable pub validation_services : List ServiceConfig → List ServiceConfig
validation_services [] = []
validation_services (svc ∷ services) = validation_service svc ∷ validation_services services

unfoldable pub apply_validation_defaults : Config → Config
apply_validation_defaults cfg = record cfg {
  services = validation_services cfg.services;
  redis = record (cfg.redis) { addr = text_or "localhost:6379" cfg.redis.addr };
  api = record (cfg.api) { addr = text_or ":8080" cfg.api.addr };
  circuit = record {
    failure_threshold = number_or (pos 3) cfg.circuit.failure_threshold;
    success_threshold = number_or (pos 1) cfg.circuit.success_threshold;
    timeout = number_or (pos (seconds 30)) cfg.circuit.timeout;
  };
  anomaly = record { latency_multiplier = number_or (pos 2_000) cfg.anomaly.latency_multiplier };
}

-- `validateConfigForPersist`. The copy that it gives defaults to shares the array of the services with
-- the configuration, which is saved afterwards: so the services of both have them.
unfoldable pub validate_for_persist : Libraries → Config → Config × List Problem
validate_for_persist lib cfg = (
  record cfg { services = validation_services cfg.services },
  validate lib.scheme (apply_validation_defaults cfg),
)

-- `loadConfigFile`.
unfoldable pub load_config_file : Libraries → Weather → Disk → Config ⊎ String
load_config_file lib env disk = elim env.unreadable [
  | some e ↦ inr e
  | none ↦ lib.unmarshal disk.config
]

-- What is left of the temporary files when an attempt fails: `os.Remove` may fail too, which is ignored.
left_over : Bool → String → List String → List String
left_over true text' others = text' ∷ others
left_over false text' others = others

-- The text is written to a temporary file, which then takes the place of the file or is removed.
unfoldable pub replace_file : Option Fault → String → Disk → Disk × Option String
unfolding left_over
replace_file (some (creating e)) text' disk = (disk, some e)
replace_file (some (writing stuck part e)) text' disk =
    (record disk { temporaries = left_over stuck part disk.temporaries }, some e)
replace_file (some (closing stuck e)) text' disk =
    (record disk { temporaries = left_over stuck text' disk.temporaries }, some e)
replace_file (some (renaming stuck e)) text' disk =
    (record disk { temporaries = left_over stuck text' disk.temporaries }, some e)
replace_file none text' disk = (record disk { config = text' }, none)

unfoldable pub save_text : Option Fault → String ⊎ String → Disk → Disk × Option String
save_text fault (inr e) disk = (disk, some e)
save_text fault (inl text') disk = replace_file fault text' disk

-- `saveConfigFile`.
abbrev pub save_config_file : Libraries → Weather → Config → Disk → Disk × Option String
save_config_file lib env cfg disk = save_text env.fault (lib.marshal cfg) disk

-- `PublishServiceConfigCommand`, which may fail.
abbrev publish : Weather → Command → World → World
publish env cmd w = elim env.redis_down [
  | some e ↦ w
  | none ↦ record w { commands = w.commands ++ cmd ∷ [] }
]

abbrev write_audit : Weather → String → String → Option ServiceConfig → World → World
write_audit env action name details w =
    if env.has_db
    then record w {
      audits =
          w.audits
          ++ record { action = action; service = name; user_id = env.user_id; details = details }
            ∷ [];
    }
    else w

-- The end of the three handlers: the command, and the audit unless the command failed.
unfoldable pub announce :
    Weather → Command → String → String → Option ServiceConfig → Response → World → World × Response
announce env cmd warned action details done w = elim env.redis_down [
  | some e ↦ (publish env cmd w, answer 202 (warning warned e details))
  | none ↦ (write_audit env action cmd.service_name details (publish env cmd w), done)
]

abbrev pub update_disk : World → Disk → World
update_disk w disk = record w { disk = disk }

-- What the problems of the changed configuration and the outcome of saving it lead to.
unfoldable pub finish :
    List Problem → Disk × Option String → World → (World → World × Response) → World × Response
finish (p ∷ ps) saved w continue = (w, answer 400 (rejected (p ∷ ps)))
finish [] (disk, some e) w continue = (update_disk w disk, answer 500 (failure e))
finish [] (disk, none) w continue = continue (update_disk w disk)

-- The middle of the three handlers: the changed configuration is validated and saved.
unfoldable pub persist :
    Libraries → Weather → Config → World → (World → World × Response) → World × Response
persist lib env cfg w continue =
    let (normal, problems) = validate_for_persist lib cfg in
    finish problems (save_config_file lib env normal w.disk) w continue
