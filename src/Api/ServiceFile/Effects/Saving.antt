-- ===== src/Api/ServiceFile/Effects/Saving.antt =====
-- What the end of the handlers of apps/api/handlers/config_services.go leaves behind: saving the file and
-- sending the command.
use infrawatch.Prelude.{
  ◌≡◌, refl, sym, ap, ◌∙◌, ◌⊎◌, inl, inr, String, true, List, [], ◌∷◌, Option, none, some,
  Option-cases, arith, leb, is_some,
}
use infrawatch.Config.{ServiceConfig, Config}
use infrawatch.Config.Defaults.{apply_defaults}
use infrawatch.Config.Validator.{Problem, validate}
use infrawatch.Api.ServiceFile.{
  Libraries, Weather, Fault, creating, closing, renaming, writing, Disk, Command, World, Response,
}
use infrawatch.Api.ServiceFile.Persist.{
  announce, validate_for_persist, replace_file, save_config_file, save_text, finish, persist,
  update_disk,
}
use infrawatch.Api.ServiceFile.Agree.{normal, stored, validate-reread, validate-stored}
use infrawatch.Api.ServiceFile.Accepted.{RoundTrips}
use infrawatch.Api.ServiceFile.Effects.{Change, IsRefused, IsDone, Effect}

replace_file-config :
    (fault : Option Fault) (text' : String) (disk : Disk)
    → (((replace_file fault text' disk).1 ≡ none)
        × ((replace_file fault text' disk).0.config ≡ text'))
      ⊎ ((is_some (replace_file fault text' disk).1 ≡ true)
          × ((replace_file fault text' disk).0.config ≡ disk.config))
unfolding replace_file
replace_file-config none text' disk = inl (refl, refl)
replace_file-config (some (creating e)) text' disk = inr (refl, refl)
replace_file-config (some (writing stuck part e)) text' disk = inr (refl, refl)
replace_file-config (some (closing stuck e)) text' disk = inr (refl, refl)
replace_file-config (some (renaming stuck e)) text' disk = inr (refl, refl)

-- What saving leads to.
save_text-config :
    (lib : Libraries) (cfg : Config) (fault : Option Fault) (encoded : String ⊎ String)
    (disk : Disk)
    → ((text' : String) → encoded ≡ inl text' → lib.unmarshal text' ≡ inl cfg)
    → (((save_text fault encoded disk).1 ≡ none)
        × (lib.unmarshal (save_text fault encoded disk).0.config ≡ inl cfg))
      ⊎ ((is_some (save_text fault encoded disk).1 ≡ true)
          × ((save_text fault encoded disk).0.config ≡ disk.config))
unfolding save_text
save_text-config lib cfg fault (inr e) disk r = inr (refl, refl)
save_text-config lib cfg fault (inl text') disk r = elim (replace_file-config fault text' disk) [
  | inl h ↦ inl (h.0, ap lib.unmarshal h.1 ∙ r text' refl)
  | inr h ↦ inr h
]

announce-IsDone :
    (lib : Libraries) (env : Weather) (cfg : Config) (cmd : Command) (warned action : String)
    (details : Option ServiceConfig) (done : Response) (w : World)
    → leb done.status 201 ≡ true
    → lib.unmarshal w.disk.config ≡ inl cfg
    → validate lib.scheme (apply_defaults cfg) ≡ []
    → IsDone lib env cfg cmd w (announce env cmd warned action details done w)
unfolding announce
announce-IsDone lib env cfg cmd warned action details done w d u v =
    ground (arith, Option-cases env.redis_down)

module _ (lib : Libraries) (env : Weather) (cmd : Command) (warned action : String)
    (details : Option ServiceConfig) (done : Response) where
  finish-cases :
      (cfg : Config) (problems : List Problem) (saved : Disk × Option String) (w : World)
      → leb done.status 201 ≡ true
      → (problems ≡ [] → validate lib.scheme (apply_defaults cfg) ≡ [])
      → ((saved.1 ≡ none) × (lib.unmarshal saved.0.config ≡ inl cfg))
        ⊎ ((is_some saved.1 ≡ true) × (saved.0.config ≡ w.disk.config))
      → IsRefused w (finish problems saved w (announce env cmd warned action details done))
        ⊎ IsDone lib env cfg cmd w
            (finish problems saved w (announce env cmd warned action details done))
  unfolding finish
  finish-cases cfg (p ∷ ps) saved w d v s =
      inl (record { error = refl; kept = refl; silent = refl; unaudited = refl })
  finish-cases cfg [] (disk, some e) w d v (inl s) = absurd (ground (arith, s))
  finish-cases cfg [] (disk, some e) w d v (inr s) =
      inl (record { error = refl; kept = s.1; silent = refl; unaudited = refl })
  finish-cases cfg [] (disk, none) w d v (inl s) =
      let i =
        announce-IsDone lib env cfg cmd warned action details done (update_disk w disk) d s.1
          (v refl) in
      inr (record { saved = i.saved; accepted = i.accepted; sent = i.sent })
  finish-cases cfg [] (disk, none) w d v (inr s) = absurd (ground (arith, s))

  persist-cases :
      (cfg : Config) (w : World)
      → RoundTrips lib
      → leb done.status 201 ≡ true
      → IsRefused w (persist lib env cfg w (announce env cmd warned action details done))
        ⊎ IsDone lib env
            (stored cfg)
            cmd
            w
            (persist lib env cfg w (announce env cmd warned action details done))
  unfolding persist validate_for_persist
  persist-cases cfg w r d =
      finish-cases (stored cfg) (validate_for_persist lib cfg).1
        (save_config_file lib env (normal cfg) w.disk) w d
        (λ h. validate-reread lib.scheme (normal cfg) ∙ sym (validate-stored lib cfg) ∙ h)
        (save_text-config lib (stored cfg) env.fault (lib.marshal (normal cfg)) w.disk
          (λ text' m. r (normal cfg) text' m))

  pub persist-Effect :
      (old cfg : Config) (w : World)
      → RoundTrips lib
      → leb done.status 201 ≡ true
      → lib.unmarshal w.disk.config ≡ inl old
      → Change old (stored cfg) cmd
      → Effect lib env w (persist lib env cfg w (announce env cmd warned action details done))
  persist-Effect old cfg w r d u c = elim (persist-cases cfg w r d) [
    | inl h ↦ inl h
    | inr h ↦ inr (old, stored cfg, cmd, u, c, h)
  ]
