-- ===== src/Prelude/Lists.antt =====
-- Lists measured by native numbers, under the library's names.
use Prim.Native.Nat.{ℕ, zero, suc, ◌+◌, ◌-◌, ◌<◌, ◌≤◌}
use mathlib.Core.Path.{◌≡◌, refl, ◌∙◌}
use mathlib.Core.List.{List, [], ◌∷◌, ◌++◌}
use mathlib.Core.Option.{Option, none, some}
use native.Mathlib.Omega.{arith}

-- Every element has the property.
abbrev pub All {ℓ κ} : {A : Type ℓ} → (A → Type κ) → List A → Type κ
All P [] = Unit
All P (x ∷ xs) = P x × All P xs

module _ {ℓ} {A : Type ℓ} where
  abbrev pub length : List A → ℕ
  length [] = 0
  length (x ∷ xs) = suc (length xs)

  abbrev pub drop : ℕ → List A → List A
  drop zero xs = xs
  drop (suc n) [] = []
  drop (suc n) (x ∷ xs) = drop n xs

  -- The last element.
  abbrev pub get_last? : List A → Option A
  get_last? [] = none
  get_last? (x ∷ []) = some x
  get_last? (x ∷ y ∷ ys) = get_last? (y ∷ ys)

  pub length-append : (xs ys : List A) → length (xs ++ ys) ≡ length xs + length ys
  length-append [] ys = omega arith
  length-append (x ∷ xs) ys = omega (arith, length-append xs ys)

  pub length-drop : (n : ℕ) (xs : List A) → length (drop n xs) ≡ length xs - n
  length-drop zero xs = omega arith
  length-drop (suc n) [] = omega arith
  length-drop (suc n) (x ∷ xs) = omega (arith, length-drop n xs)

  pub get_last?-append : (xs : List A) (x : A) → get_last? (xs ++ x ∷ []) ≡ some x
  get_last?-append [] x = refl
  get_last?-append (y ∷ []) x = refl
  get_last?-append (y ∷ z ∷ zs) x = get_last?-append (z ∷ zs) x

  -- Dropping fewer elements than there are keeps the last one.
  pub get_last?-drop : (n : ℕ) (xs : List A) → n < length xs → get_last? (drop n xs) ≡ get_last? xs
  get_last?-drop zero xs h = refl
  get_last?-drop (suc n) [] h = elim h [ ]
  get_last?-drop (suc n) (x ∷ []) h = absurd (omega arith)
  get_last?-drop (suc n) (x ∷ y ∷ ys) h = get_last?-drop n (y ∷ ys) (omega arith)

  -- A sliding window: `xs = append(xs, x); if len(xs) > n { xs = xs[len(xs)-n:] }`.
  unfoldable pub push_bounded : ℕ → List A → A → List A
  push_bounded n xs x = drop (length (xs ++ x ∷ []) - n) (xs ++ x ∷ [])

  pub push_bounded-length : (n : ℕ) (xs : List A) (x : A) → length (push_bounded n xs x) ≤ n
  unfolding push_bounded
  push_bounded-length n xs x = omega (arith, length-drop (length (xs ++ x ∷ []) - n) (xs ++ x ∷ []))

  pub push_bounded-last :
      (n : ℕ) (xs : List A) (x : A) → 0 < n → get_last? (push_bounded n xs x) ≡ some x
  unfolding push_bounded
  push_bounded-last n xs x h =
      get_last?-drop (length (xs ++ x ∷ []) - n) (xs ++ x ∷ [])
        (omega (arith, length-append xs (x ∷ [])))
      ∙ get_last?-append xs x
