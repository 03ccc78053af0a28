-- ===== src/Api/ServiceFile/Effects/Handled.antt =====
-- What each handler of apps/api/handlers/config_services.go leaves behind.
use infrawatch.Prelude.{
  ◌≡◌, refl, sym, ap, subst, ◌∙◌, ◌⊎◌, inl, inr, ℕ, String, true, Option, none, some, Option-cases,
  Bool-cases, arith, str_eq, eq_iff, leb,
}
use infrawatch.Prelude.Time.{seconds}
use infrawatch.Prelude.Int.{ℤ, pos}
use infrawatch.Config.{ServiceConfig, Config}
use infrawatch.Api.ServiceFile.{UpsertRequest, Libraries, Weather, Disk, World, Response}
use infrawatch.Api.ServiceFile.Request.{
  duration_or, request_error, with_durations, request_to_service,
}
use infrawatch.Api.ServiceFile.Persist.{service_index, load_config_file}
use infrawatch.Api.ServiceFile.Handlers.{
  with_service, named, create, create_loaded, update_loaded, delete_loaded, create_found,
  create_service, update, update_found, update_service, delete_found, delete_service, Call, post,
  put, remove, handle,
}
use infrawatch.Api.ServiceFile.Accepted.{RoundTrips}
use infrawatch.Api.ServiceFile.Effects.{adds, replaces, removes, IsRefused, Effect}
use infrawatch.Api.ServiceFile.Effects.Saving.{persist-Effect}

refused :
    (w : World) (after : World × Response)
    → after.0 ≡ w
    → leb 400 after.1.status ≡ true
    → IsRefused w after
refused w after h e = record {
  error = e;
  kept = ap (λ v. v.disk.config) h;
  silent = ap (λ v. v.commands) h;
  unaudited = ap (λ v. v.audits) h;
}

load_lem :
    (lib : Libraries) (env : Weather) (disk : Disk) (cfg : Config)
    → load_config_file lib env disk ≡ inl cfg
    → lib.unmarshal disk.config ≡ inl cfg
unfolding load_config_file
load_lem lib env disk cfg h = ground (arith, h, Option-cases env.unreadable)

name_of : ServiceConfig ⊎ String → String
name_of (inl svc) = svc.name
name_of (inr e) = ""

with_durations-name :
    (req : UpsertRequest) (interval timeout : ℤ ⊎ String) (svc : ServiceConfig)
    → with_durations req interval timeout ≡ inl svc
    → svc.name ≡ req.name
unfolding with_durations name_of
with_durations-name req (inr e) timeout svc h = absurd (ground (arith, h))
with_durations-name req (inl i) (inr e) svc h = absurd (ground (arith, h))
with_durations-name req (inl i) (inl t) svc h = ap name_of (sym h)

request_to_service-name :
    (lib : Libraries) (req : UpsertRequest) (svc : ServiceConfig)
    → request_to_service lib req ≡ inl svc
    → svc.name ≡ req.name
unfolding request_to_service
request_to_service-name lib req svc h = elim (Option-cases (request_error req)) [
  | inl e ↦
      with_durations-name req (duration_or lib.parse_duration (pos (seconds 30)) req.interval)
        (duration_or lib.parse_duration (pos (seconds 5)) req.timeout) svc
        (subst
          (λ o.
            (elim o as (λ _. ServiceConfig ⊎ String) [
              | some e ↦ inr e
              | none ↦
                  with_durations req
                    (duration_or lib.parse_duration (pos (seconds 30)) req.interval)
                    (duration_or lib.parse_duration (pos (seconds 5)) req.timeout)
            ])
            ≡ inl svc)
          e h)
  | inr (m, e) ↦ absurd (ground (arith, e, h))
]

module _ (lib : Libraries) (r : RoundTrips lib) (env : Weather) where
  create_found-Effect :
      (svc : ServiceConfig) (cfg : Config) (i : Option ℕ) (w : World)
      → lib.unmarshal w.disk.config ≡ inl cfg
      → service_index cfg.services svc.name ≡ i
      → Effect lib env w (create_found lib env svc cfg i w)
  unfolding create_found
  create_found-Effect svc cfg (some i) w u h = inl (refused w _ refl refl)
  create_found-Effect svc cfg none w u h =
      persist-Effect lib env _ _ _ _ _ cfg (with_service cfg svc) w r refl u
        (adds cfg svc env.now h)

  update_found-Effect :
      (target : String) (svc : ServiceConfig) (cfg : Config) (i : Option ℕ) (w : World)
      → svc.name ≡ target
      → lib.unmarshal w.disk.config ≡ inl cfg
      → service_index cfg.services target ≡ i
      → Effect lib env w (update_found lib env target svc cfg i w)
  unfolding update_found
  update_found-Effect target svc cfg none w n u h = inl (refused w _ refl refl)
  update_found-Effect target svc cfg (some i) w n u h =
      persist-Effect lib env _ _ _ _ _ cfg _ w r refl u
        (replaces cfg svc i env.now (ap (service_index cfg.services) n ∙ h))

  delete_found-Effect :
      (target : String) (cfg : Config) (i : Option ℕ) (w : World)
      → lib.unmarshal w.disk.config ≡ inl cfg
      → service_index cfg.services target ≡ i
      → Effect lib env w (delete_found lib env target cfg i w)
  unfolding delete_found
  delete_found-Effect target cfg none w u h = inl (refused w _ refl refl)
  delete_found-Effect target cfg (some i) w u h =
      persist-Effect lib env _ _ _ _ _ cfg _ w r refl u (removes cfg target i env.now h)

  create_loaded-Effect :
      (svc : ServiceConfig) (loaded : Config ⊎ String) (w : World)
      → load_config_file lib env w.disk ≡ loaded
      → Effect lib env w (create_loaded lib env svc loaded w)
  unfolding create_loaded
  create_loaded-Effect svc (inr e) w h = inl (refused w _ refl refl)
  create_loaded-Effect svc (inl cfg) w h =
      create_found-Effect svc cfg (service_index cfg.services svc.name) w
        (load_lem lib env w.disk cfg h) refl

  update_loaded-Effect :
      (target : String) (svc : ServiceConfig) (loaded : Config ⊎ String) (w : World)
      → svc.name ≡ target
      → load_config_file lib env w.disk ≡ loaded
      → Effect lib env w (update_loaded lib env target svc loaded w)
  unfolding update_loaded
  update_loaded-Effect target svc (inr e) w n h = inl (refused w _ refl refl)
  update_loaded-Effect target svc (inl cfg) w n h =
      update_found-Effect target svc cfg (service_index cfg.services target) w n
        (load_lem lib env w.disk cfg h) refl

  delete_loaded-Effect :
      (target : String) (loaded : Config ⊎ String) (w : World)
      → load_config_file lib env w.disk ≡ loaded
      → Effect lib env w (delete_loaded lib env target loaded w)
  unfolding delete_loaded
  delete_loaded-Effect target (inr e) w h = inl (refused w _ refl refl)
  delete_loaded-Effect target (inl cfg) w h =
      delete_found-Effect target cfg (service_index cfg.services target) w
        (load_lem lib env w.disk cfg h) refl

  create_service-Effect :
      (described : ServiceConfig ⊎ String) (w : World)
      → Effect lib env w (create_service lib env described w)
  unfolding create_service
  create_service-Effect (inr e) w = inl (refused w _ refl refl)
  create_service-Effect (inl svc) w =
      create_loaded-Effect svc (load_config_file lib env w.disk) w refl

  update_service-Effect :
      (target : String) (described : ServiceConfig ⊎ String) (w : World)
      → ((svc : ServiceConfig) → described ≡ inl svc → svc.name ≡ target)
      → Effect lib env w (update_service lib env target described w)
  unfolding update_service
  update_service-Effect target (inr e) w n = inl (refused w _ refl refl)
  update_service-Effect target (inl svc) w n =
      update_loaded-Effect target svc (load_config_file lib env w.disk) w (n svc refl) refl

-- A request that creates, updates or deletes a service is refused with an error and leaves the file's text, the
-- commands and the audits as they were; or it adds, replaces or removes one service by name, saves a
-- configuration in which the engine's validation finds no problem, and sends the engine the command for that change, unless Redis fails: then the answer is 202
-- and nothing is sent or audited. The rest of the configuration stays, but for the defaults that all its services get and for state rules that were
-- missing, which become empty. Files are read here as they stand, environment variables not expanded; one that was written is read as what was written, but for missing
-- state rules, which are read as empty.
pub handle-Effect :
    (lib : Libraries) (env : Weather) (call : Call) (w : World)
    → RoundTrips lib
    → Effect lib env w (handle lib env call w)
unfolding handle create update delete_service
handle-Effect lib env (post none) w r = inl (refused w _ refl refl)
handle-Effect lib env (post (some req)) w r =
    create_service-Effect lib r env (request_to_service lib req) w
handle-Effect lib env (put target none) w r = inl (refused w _ refl refl)
handle-Effect lib env (put target (some req)) w r =
    elim (Bool-cases (str_eq (named target req).name target)) [
      | inl e ↦ rw e (
          update_service-Effect lib r env target (request_to_service lib (named target req)) w
            (λ svc h.
              request_to_service-name lib (named target req) svc h
              ∙ (eq_iff (named target req).name target).0 e))
      | inr e ↦ rw e (inl (refused w _ refl refl))
    ]
handle-Effect lib env (remove target) w r =
    delete_loaded-Effect lib r env target (load_config_file lib env w.disk) w refl
