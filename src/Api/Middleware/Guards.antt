-- ===== src/Api/Middleware/Guards.antt =====
-- What passes the middleware of apps/api/middleware.
use infrawatch.Prelude.{◌≡◌, String, true, false, some, str_eq}
use infrawatch.Prelude.Letters.{to_lower}
use infrawatch.Api.Middleware.{split_space}

-- Where a token may stand: after `Bearer` and a space in the header, in any case, or in the query when there is no header.
pub data Carries : String → String → String → Type 0 where
  in_query :
      (header query : String)
      → str_eq header "" ≡ true
      → str_eq query "" ≡ false
      → Carries header query query
  in_header :
      (header query scheme token : String)
      → str_eq header "" ≡ false
      → split_space header ≡ some (scheme, token)
      → str_eq (to_lower scheme) "bearer" ≡ true
      → Carries header query token
