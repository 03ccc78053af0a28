-- ===== src/Config/Names.antt =====
-- The texts that the validation of the configuration accepts (apps/engine/config/validator.go): the
-- two regular expressions, and the comparison of a method in capitals.
use infrawatch.Prelude.{ℕ, ◌-◌, Bool, true, false, ◌&&◌, ◌||◌, String, leb, ◌==◌, if◌then◌else◌}
use Prim.Native.Char.{code}

is_digit : ℕ → Bool
is_digit c = leb b'0' c && leb c b'9'

is_lower : ℕ → Bool
is_lower c = leb b'a' c && leb c b'z'

is_upper : ℕ → Bool
is_upper c = leb b'A' c && leb c b'Z'

is_alphanumeric : ℕ → Bool
unfolding is_digit is_lower is_upper
is_alphanumeric c = is_digit c || is_lower c || is_upper c

is_docker_rest : String → Bool
unfolding is_alphanumeric
is_docker_rest String.[] = true
is_docker_rest (String.◌∷◌ c s) =
    (is_alphanumeric (code c) || code c == b'_' || code c == b'.' || code c == b'-')
    && is_docker_rest s

-- `^[a-zA-Z0-9][a-zA-Z0-9_.\-]*$`.
unfoldable pub is_docker_name : String → Bool
unfolding is_docker_rest is_alphanumeric
is_docker_name String.[] = false
is_docker_name (String.◌∷◌ c s) = is_alphanumeric (code c) && is_docker_rest s

-- What follows in a name whose last character was an alphanumeric one, or not.
is_k8s_rest : Bool → String → Bool
unfolding is_digit is_lower
is_k8s_rest ended String.[] = ended
is_k8s_rest ended (String.◌∷◌ c s) =
    (is_lower (code c) || is_digit (code c) || code c == b'-')
    && is_k8s_rest (is_lower (code c) || is_digit (code c)) s

-- `^[a-z0-9]([a-z0-9\-]*[a-z0-9])?$`.
unfoldable pub is_k8s_name : String → Bool
unfolding is_k8s_rest is_digit is_lower
is_k8s_name String.[] = false
is_k8s_name (String.◌∷◌ c s) = (is_lower (code c) || is_digit (code c)) && is_k8s_rest true s

-- The capital of a character, as far as it is an ASCII letter: two letters outside ASCII have one.
upper_code : ℕ → ℕ
unfolding is_lower
upper_code c =
    if is_lower c then c - 32 else (if c == 0x131 then b'I' else (if c == 0x17f then b'S' else c))

-- `strings.ToUpper(s) == t`, for a text `t` of ASCII capitals.
unfoldable pub is_upper_of : String → String → Bool
unfolding upper_code
is_upper_of String.[] String.[] = true
is_upper_of String.[] (String.◌∷◌ d t) = false
is_upper_of (String.◌∷◌ c s) String.[] = false
is_upper_of (String.◌∷◌ c s) (String.◌∷◌ d t) = upper_code (code c) == code d && is_upper_of s t
