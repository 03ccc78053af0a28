-- ===== src/Health/Checker.antt =====
-- apps/engine/internal/health/checker.go: one health check over HTTP. The HTTP library is the
-- parameter `Http`: how it spells a header's name, and what comes of a request.
use infrawatch.Prelude.{
  ◌≡◌, ◌↔◌, ℕ, String, Bool, true, false, not, ◌&&◌, List, [], ◌∷◌, Option, none, some, str_eq,
  get_or, is_some, if◌then◌else◌,
}
use infrawatch.Prelude.Decimal.{decimal, decimal_ℤ}
use infrawatch.Prelude.Int.{ℤ, pos, leb_ℤ, int_eq}
use infrawatch.Prelude.Map.{Map, lookup, insert}
use infrawatch.Prelude.Time.{Instant, seconds}
use infrawatch.Config.{ServiceConfig}
use Prim.Native.String.{◌++◌}
use text.Mathlib.Text.{find?}
pub mod Outcome

pub record CheckResult : Type 0 where
  pub service_name : String
  pub ok : Bool
  pub status_code : ℕ
  pub response_time : ℕ
  pub error : Option String
  pub timestamp : Instant
  pub source : String

abbrev pub source_alertmanager : String
source_alertmanager = "alertmanager"

pub record Request : Type 0 where
  pub method : String
  pub url : String
  pub headers : Map String
  pub timeout : ℤ

-- The first megabyte of a body, or the error of reading it.
pub data Body : Type 0 where
  readable : String → Body
  unreadable : String → Body

-- What comes of a request: it cannot be built, it fails after some time, or it is answered.
pub data Exchange : Type 0 where
  not_built : String → Exchange
  no_answer : ℕ → String → Exchange
  answer : ℕ → ℕ → Body → Exchange

pub record Http : Type 0 where
  pub canonical : String → String
  pub exchange : Request → Exchange

set_headers : Http → Map String → Map String → Map String
set_headers http [] m = m
set_headers http ((k, v) ∷ headers) m = set_headers http headers (insert (http.canonical k) v m)

add_user_agent : Http → Map String → Map String
add_user_agent http m =
    let key = http.canonical "User-Agent" in
    if str_eq (get_or (lookup key m) "") "" then insert key "infrawatch-health-checker/1.0" m else m

unfoldable pub request : Http → ServiceConfig → Request
unfolding set_headers add_user_agent
request http svc = record {
  method = svc.method;
  url = svc.url;
  headers = add_user_agent http (set_headers http svc.headers []);
  timeout = if leb_ℤ svc.timeout (pos 0) then pos (seconds 5) else svc.timeout;
}

unfoldable pub contains_string : String → String → Bool
contains_string body target = is_some (find? body target)

unfoldable pub expected_status : ServiceConfig → ℤ
expected_status svc = if int_eq svc.expect_status (pos 0) then pos 200 else svc.expect_status

-- The optional match of the body: the error, if there is one.
unfoldable pub body_error : ServiceConfig → Body → Option String
body_error svc body = if str_eq svc.expect_body "" then none else elim body [
  | unreadable e ↦ some ("reading response body: " ++ e)
  | readable t ↦
      if contains_string t svc.expect_body
      then none
      else some ("body missing expected string: " ++ svc.expect_body)
]

unfoldable pub answer_error : ServiceConfig → ℕ → Body → Option String
answer_error svc status body =
    if not (int_eq (pos status) (expected_status svc))
    then some ("expected status " ++ decimal_ℤ (expected_status svc) ++ ", got " ++ decimal status)
    else body_error svc body

unfoldable pub outcome : ServiceConfig → Instant → Exchange → CheckResult
outcome svc now (not_built e) = record {
  service_name = svc.name;
  ok = false;
  status_code = 0;
  response_time = 0;
  error = some ("building request: " ++ e);
  timestamp = now;
  source = "";
}
outcome svc now (no_answer elapsed e) = record {
  service_name = svc.name;
  ok = false;
  status_code = 0;
  response_time = elapsed;
  error = some e;
  timestamp = now;
  source = "";
}
outcome svc now (answer elapsed status body) = record {
  service_name = svc.name;
  ok = not (is_some (answer_error svc status body));
  status_code = status;
  response_time = elapsed;
  error = answer_error svc status body;
  timestamp = now;
  source = "";
}

-- `Check`.
unfoldable pub check : Http → ServiceConfig → Instant → CheckResult
check http svc now = outcome svc now (http.exchange (request http svc))
