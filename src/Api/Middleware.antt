-- ===== src/Api/Middleware.antt =====
-- apps/api/middleware/auth.go and cors.go: the bearer token of a request and the allowed origin. What the
-- JWT library makes of a token, the subject of a valid one signed by HMAC, is a parameter.
use infrawatch.Prelude.{
  ℕ, String, Bool, true, false, not, ◌&&◌, ◌||◌, List, [], ◌∷◌, Option, none, some, ◌⊎◌, inl, inr,
  ◌==◌, str_eq, if◌then◌else◌,
}
use Prim.Native.Char.{code}
use infrawatch.Prelude.Letters.{to_lower}
use infrawatch.Alerts.Channels.{contains}
pub mod Guards
pub mod Tests

-- `strings.SplitN(s, " ", 2)`: the text before the first space and the one after it, none without a space.
unfoldable split_space : String → Option (String × String)
split_space String.[] = none
split_space (String.◌∷◌ c s) = elim (split_space s) [
  | none ↦ if code c == b' ' then some ("", s) else none
  | some (before, after) ↦
      if code c == b' ' then some ("", s) else some (String.◌∷◌ c before, after)
]

unfoldable bearer : Option (String × String) → String ⊎ String
bearer none = inr "invalid Authorization format, expected: Bearer <token>"
bearer (some (scheme, token)) =
    if str_eq (to_lower scheme) "bearer"
    then inl token
    else inr "invalid Authorization format, expected: Bearer <token>"

-- `extractToken`, from the header and the parameter of the query.
unfoldable extract_token : String → String → String ⊎ String
extract_token header query =
    if str_eq header ""
    then (if not (str_eq query "") then inl query else inr "missing Authorization header")
    else bearer (split_space header)

unfoldable check_token : (String → Option String) → String ⊎ String → String ⊎ String
check_token parse (inr e) = inr e
check_token parse (inl token) = elim (parse token) [
  | none ↦ inr "invalid or expired token"
  | some subject ↦ inl subject
]

-- `JWT`: the user of a request that may pass, or the error of its 401.
unfoldable authorise : (String → Option String) → String → String → String ⊎ String
unfolding check_token
authorise parse header query = check_token parse (extract_token header query)

-- `strings.TrimRight(o, "/")`.
unfoldable trim_slashes : String → String
trim_slashes String.[] = ""
trim_slashes (String.◌∷◌ c s) =
    let rest = trim_slashes s in if code c == b'/' && str_eq rest "" then "" else String.◌∷◌ c rest

unfoldable origin_set : List String → List String
origin_set [] = []
origin_set (o ∷ origins) = trim_slashes o ∷ origin_set origins

unfoldable is_none : List String → Bool
is_none [] = true
is_none (_ ∷ _) = false

-- The origin that the header allows, empty for none.
unfoldable allowed_origin : List String → String → String
unfolding is_none
allowed_origin origins origin =
    if is_none origins then "*" else (if contains origin (origin_set origins) then origin else "")

-- `CORS`: the origin in the headers, if they are set, and whether the request is passed on.
unfoldable cors : List String → String → String → Option String × Bool
cors origins origin method = (
  if str_eq (allowed_origin origins origin) "" then none else some (allowed_origin origins origin),
  not (str_eq method "OPTIONS"),
)
