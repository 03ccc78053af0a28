-- ===== src/Health/Checker/Outcome.antt =====
-- When a check over HTTP passes (apps/engine/internal/health/checker.go).
use infrawatch.Prelude.{ℕ, false, get_or, str_eq, ◌≡◌, ◌⊎◌, true, is_some}
use infrawatch.Prelude.Int.{pos, int_eq, leb_ℤ}
use infrawatch.Prelude.Map.{Map, lookup}
use text.Mathlib.Text.{find?}
use infrawatch.Config.{ServiceConfig}
use infrawatch.Health.Checker.{
  Http, Request, Exchange, not_built, no_answer, answer, readable, unreadable,
}

-- The status that a service's settings ask for: 200 if they set none.
abbrev pub Asks : ServiceConfig → ℕ → Type 0
Asks svc status =
    ((int_eq svc.expect_status (pos 0) ≡ true) × (status ≡ 200))
    ⊎ ((int_eq svc.expect_status (pos 0) ≡ false) × (int_eq (pos status) svc.expect_status ≡ true))

-- The answer that the settings ask for: the status, and the text in the body if one is set.
abbrev pub Passes : ServiceConfig → Exchange → Type 0
Passes svc (not_built e) = ⊥
Passes svc (no_answer elapsed e) = ⊥
Passes svc (answer elapsed status (unreadable e)) = Asks svc status × (svc.expect_body ≡ "")
Passes svc (answer elapsed status (readable t)) =
    Asks svc status × ((svc.expect_body ≡ "") ⊎ (is_some (find? t svc.expect_body) ≡ true))

-- What is asked of the service: its URL by its method, for its timeout or 5 seconds if that is not
-- positive, with a user agent that is not empty.
pub record IsRequest (http : Http) (svc : ServiceConfig) (r : Request) : Type 0 where
  pub url : r.url ≡ svc.url
  pub method : r.method ≡ svc.method
  pub timeout :
      ((leb_ℤ svc.timeout (pos 0) ≡ true) × (r.timeout ≡ pos 5_000_000_000))
      ⊎ ((leb_ℤ svc.timeout (pos 0) ≡ false) × (r.timeout ≡ svc.timeout))
  pub agent : str_eq (get_or (lookup (http.canonical "User-Agent") r.headers) "") "" ≡ false
