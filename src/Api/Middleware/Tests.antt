-- ===== src/Api/Middleware/Tests.antt =====
-- A request that passes the middleware of apps/api/middleware.
use infrawatch.Prelude.{◌≡◌, refl, String, Option, none, some, inl, str_eq, if◌then◌else◌}
use infrawatch.Api.Middleware.{authorise, check_token, extract_token, bearer, split_space}
use infrawatch.Prelude.Letters.{to_lower}

abbrev parse : String → Option String
parse token = if str_eq token "abc" then some "ops" else none

passes_with_header : authorise parse "bearer abc" "" ≡ inl "ops"
unfolding authorise check_token extract_token bearer split_space to_lower
passes_with_header = refl
