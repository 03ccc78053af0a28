-- ===== src/Healing/Healer/Outcome.antt =====
-- Which action's result a healing attempt returns, and what it leaves alone
-- (apps/engine/internal/healing/healer.go).
use infrawatch.Prelude.{
  ◌≡◌, ◌≢◌, refl, sym, ◌∙◌, ap, subst, ◌⊎◌, inl, inr, String, true, false, List, [], ◌∷◌, ◌++◌,
  Option, none, some, str_eq, if◌then◌else◌, Bool-cases, Option-cases, All,
}
use infrawatch.Prelude.Map.{lookup, lookup-insert_ne}
use infrawatch.Prelude.Time.{Instant}
use infrawatch.Config.{ServiceConfig}
use infrawatch.Healing.Tracker.{can_attempt}
use infrawatch.Healing.Fallback.{all_failed, HealResult, failed, Fallbacks, reroute}
use infrawatch.Healing.Healer.{
  Backends, Healer, max_attempts, effective_actions, Action, docker, kubectl, fallback, webhook,
  action_of, run_action, run_actions, heal_with, heal,
}

module _ (out : Backends) (svc : ServiceConfig) (now : Instant) where
  -- The result of an action, whatever fallbacks are active; none for an unknown action.
  abbrev pub result_of : String → Option HealResult
  result_of name = elim (action_of name) [
    | none ↦ none
    | some a ↦ some (run_action out [] svc a now).2
  ]

  -- The action is unknown, or it fails.
  abbrev pub Fails : String → Type 0
  Fails action =
      (result_of action ≡ none)
      ⊎ ((r : HealResult) × (result_of action ≡ some r) × (r.success ≡ false))

  -- An action gives the same result over any fallbacks, and changes only those of its service.
  reroute_same :
      (m : Fallbacks)
      → ((reroute m svc now).2 ≡ (reroute [] svc now).2)
        × ((other : String)
            → svc.name ≢ other
            → lookup other (reroute m svc now).0 ≡ lookup other m)
  unfolding reroute
  reroute_same m = elim (Bool-cases (str_eq svc.fallback_url "")) [
    | inl e ↦ rw e (refl, λ other h. refl)
    | inr e ↦ rw e (refl, λ other h. lookup-insert_ne other svc.name svc.fallback_url m h)
  ]

  run_action_same :
      (m : Fallbacks) (a : Action)
      → ((run_action out m svc a now).2 ≡ (run_action out [] svc a now).2)
        × ((other : String)
            → svc.name ≢ other
            → lookup other (run_action out m svc a now).0 ≡ lookup other m)
  unfolding run_action
  run_action_same m docker = (refl, λ other h. refl)
  run_action_same m kubectl = (refl, λ other h. refl)
  run_action_same m fallback = reroute_same m
  run_action_same m webhook = (refl, λ other h. refl)

  -- What the loop returns: the result of the first action that does not fail, with the time of the
  -- attempt, or else the failure of all of them.
  abbrev pub FirstSuccess : List String → HealResult → Type 0
  FirstSuccess actions result =
      ((before : List String) × (action : String) × (after : List String) × (r : HealResult)
        × (actions ≡ before ++ action ∷ after)
        × All Fails before
        × (result_of action ≡ some r)
        × (r.success ≡ true)
        × (result ≡ record r { timestamp = now }))
      ⊎ (All Fails actions × (result ≡ failed "all_failed" (all_failed svc.name) now))

  abbrev Ends : Fallbacks → List String → Fallbacks × List String × HealResult → Type 0
  Ends m actions (m', posts, result) =
      FirstSuccess actions result
      × ((other : String) → svc.name ≢ other → lookup other m' ≡ lookup other m)

  skip :
      (m m₁ : Fallbacks) (action : String) (actions : List String)
      (x : Fallbacks × List String × HealResult)
      → Fails action
      → ((other : String) → svc.name ≢ other → lookup other m₁ ≡ lookup other m)
      → Ends m₁ actions x
      → Ends m (action ∷ actions) x
  skip m m₁ action actions (m', posts, result) f same
        (inl (b, a, c, r, e, all, res, ok, eq), kept) =
      (
        inl (action ∷ b, a, c, r, ap (◌∷◌ action) e, (f, all), res, ok, eq),
        λ other h. kept other h ∙ same other h,
      )
  skip m m₁ action actions (m', posts, result) f same (inr (all, eq), kept) =
      (inr ((f, all), eq), λ other h. kept other h ∙ same other h)

  run_actions_unknown :
      (m : Fallbacks) (sent : List String) (name : String) (actions : List String)
      → action_of name ≡ none
      → run_actions out m sent svc (name ∷ actions) now ≡ run_actions out m sent svc actions now
  unfolding run_actions
  run_actions_unknown m sent name actions e = rw (e, run_actions)

  run_actions_known :
      (m : Fallbacks) (sent : List String) (name : String) (actions : List String) (a : Action)
      → action_of name ≡ some a
      → let (m', posts, r) = run_action out m svc a now in
        run_actions out m sent svc (name ∷ actions) now ≡ (
          if r.success
          then (m', sent ++ posts, record r { timestamp = now })
          else run_actions out m' (sent ++ posts) svc actions now)
  unfolding run_actions
  run_actions_known m sent name actions a e = rw (e, run_actions)

  run_actions-Ends :
      (m : Fallbacks) (sent actions : List String)
      → Ends m actions (run_actions out m sent svc actions now)
  unfolding run_actions
  run_actions-Ends m sent [] = (inr (tt, refl), λ other h. refl)
  run_actions-Ends m sent (name ∷ actions) = elim (Option-cases (action_of name)) [
    | inl e ↦ subst (Ends m (name ∷ actions)) (sym (run_actions_unknown m sent name actions e)) (
        skip m m name actions (run_actions out m sent svc actions now) (inl (rw (e, result_of)))
          (λ other h. refl) (run_actions-Ends m sent actions))
    | inr (a, e) ↦
        let (m', posts, r) = run_action out m svc a now in
        let (same, kept) = run_action_same m a in
        let res : result_of name ≡ some r = rw (e, result_of) (ap some (sym same)) in
        subst (Ends m (name ∷ actions)) (sym (run_actions_known m sent name actions a e))
          (elim (Bool-cases r.success) [
            | inl ok ↦ rw ok (inl ([], name, actions, r, refl, tt, res, ok, rw ok), kept)
            | inr bad ↦ rw bad (
                skip m m' name actions (run_actions out m' (sent ++ posts) svc actions now)
                  (inr (r, res, bad)) kept (run_actions-Ends m' (sent ++ posts) actions))
          ])
  ]

  -- A healing attempt that is enabled, admitted and has actions returns the result of the first
  -- action that succeeds, all before it being unknown or failing, or else the failure of all. It
  -- changes the active fallback of no other service.
  pub heal-FirstSuccess :
      (h : Healer) (m : Fallbacks) (actions : List String)
      → h.cfg.enabled ≡ true
      → (can_attempt h.tracker svc.name (max_attempts h.cfg) now).1 ≡ true
      → effective_actions svc ≡ some actions
      → let (h', m', posts, result) = heal out h m svc now in
        FirstSuccess actions result
        × ((other : String) → svc.name ≢ other → lookup other m' ≡ lookup other m)
  unfolding heal heal_with
  heal-FirstSuccess h m actions on ok e = rw (on, ok, e) (run_actions-Ends m [] actions)

  -- A healing attempt that is disabled changes nothing. One that is refused, or has no action to
  -- try, changes no fallback and posts nowhere. In each case it fails and says so.
  pub heal_refused :
      (h : Healer) (m : Fallbacks)
      → (h.cfg.enabled ≡ false)
        ⊎ ((can_attempt h.tracker svc.name (max_attempts h.cfg) now).1 ≡ false)
        ⊎ (effective_actions svc ≡ none)
      → let (h', m', posts, result) = heal out h m svc now in
        (m' ≡ m)
        × (posts ≡ [])
        × (result.success ≡ false)
        × (result.action ≡ "none")
        × (h.cfg.enabled ≡ false → h' ≡ h)
  unfolding heal heal_with
  heal_refused h m (inl off) = rw off (refl, refl, refl, refl, λ _. refl)
  heal_refused h m (inr (inl refused)) = elim (Bool-cases h.cfg.enabled) [
    | inl on ↦ rw (on, refused) (refl, refl, refl, refl, λ e. cc)
    | inr off ↦ rw off (refl, refl, refl, refl, λ _. refl)
  ]
  heal_refused h m (inr (inr idle)) = elim (Bool-cases h.cfg.enabled) [
    | inl on ↦ elim (Bool-cases (can_attempt h.tracker svc.name (max_attempts h.cfg) now).1) [
      | inl ok ↦ rw (on, ok, idle) (refl, refl, refl, refl, λ e. cc)
      | inr refused ↦ rw (on, refused) (refl, refl, refl, refl, λ e. cc)
    ]
    | inr off ↦ rw off (refl, refl, refl, refl, λ _. refl)
  ]
