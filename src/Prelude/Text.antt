-- ===== src/Prelude/Text.antt =====
-- The order of texts by their code points, which is Go's byte order of UTF-8 strings.
use infrawatch.Prelude.Tests.{ltb, ◌==◌}
use Prim.Native.Char.{code}
use Prim.Native.Nat.{ℕ}
use Prim.Native.String.{String}
use mathlib.Core.Bool.{Bool, true, false, ◌&&◌, ◌||◌}
use mathlib.Core.Path.{◌≡◌, refl, ap₂}
use mathlib.Core.Logic.{◌⊎◌, inl, inr}
use native.Mathlib.Omega.{arith}
use text.Mathlib.TextEquality.{Char-path}

-- `a < b` on strings.
unfoldable pub str_ltb : String → String → Bool
str_ltb s String.[] = false
str_ltb String.[] (String.◌∷◌ d t) = true
str_ltb (String.◌∷◌ c s) (String.◌∷◌ d t) =
    ltb (code c) (code d) || (code c == code d && str_ltb s t)

pub str_ltb_irrefl : (s : String) → str_ltb s s ≡ false
unfolding str_ltb
str_ltb_irrefl String.[] = refl
str_ltb_irrefl (String.◌∷◌ c s) = ground (arith, str_ltb_irrefl s)

ltb_cases :
    (a b : ℕ) (x y : Bool)
    → ((ltb a b || (a == b && x)) ≡ true) ⊎ (a ≡ b) ⊎ ((ltb b a || (b == a && y)) ≡ true)
ltb_cases a b x y = ground arith

-- Of two texts one is less, or they are equal.
pub str_ltb_total : (s t : String) → (str_ltb s t ≡ true) ⊎ (s ≡ t) ⊎ (str_ltb t s ≡ true)
unfolding str_ltb
str_ltb_total String.[] String.[] = inr (inl refl)
str_ltb_total String.[] (String.◌∷◌ d t) = inl refl
str_ltb_total (String.◌∷◌ c s) String.[] = inr (inr refl)
str_ltb_total (String.◌∷◌ c s) (String.◌∷◌ d t) =
    elim (ltb_cases (code c) (code d) (str_ltb s t) (str_ltb t s)) [
      | inl h ↦ inl h
      | inr (inl e) ↦ elim (str_ltb_total s t) [
        | inl h ↦ inl (ground arith)
        | inr (inl h) ↦ inr (inl (ap₂ String.◌∷◌ (Char-path c d e) h))
        | inr (inr h) ↦ inr (inr (ground arith))
      ]
      | inr (inr h) ↦ inr (inr h)
    ]
