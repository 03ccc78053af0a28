-- ===== src/Prelude/Ranks.antt =====
-- Sorted lists of numbers: `sort.Float64s`, and how many elements a position has below it.
use infrawatch.Prelude.Tests.{ltb, leb, if◌then◌else◌, Bool-cases}
use infrawatch.Prelude.Lists.{length, All}
use Prim.Native.Nat.{ℕ, zero, suc, ◌≤◌, ◌<◌}
use mathlib.Core.Path.{◌≡◌, refl}
use mathlib.Core.List.{List, [], ◌∷◌}
use mathlib.Core.Logic.{inl, inr}
use mathlib.Core.Bool.{Bool}
use native.Mathlib.Omega.{arith}

insert_sorted : ℕ → List ℕ → List ℕ
insert_sorted x [] = x ∷ []
insert_sorted x (y ∷ ys) = let rest = insert_sorted x ys in if leb x y then x ∷ y ∷ ys else y ∷ rest

unfoldable pub sort : List ℕ → List ℕ
unfolding insert_sorted
sort [] = []
sort (x ∷ xs) = insert_sorted x (sort xs)

-- `xs[i]`; the callers keep i within the list.
unfoldable pub nth : ℕ → List ℕ → ℕ
nth i [] = 0
nth zero (x ∷ xs) = x
nth (suc i) (x ∷ xs) = nth i xs

-- How many elements pass a test.
abbrev pub count : (ℕ → Bool) → List ℕ → ℕ
count p [] = 0
count p (x ∷ xs) = let rest = count p xs in if p x then suc rest else rest

abbrev pub IsSorted : List ℕ → Type 0
IsSorted [] = Unit
IsSorted (x ∷ xs) = All (λ y. x ≤ y) xs × IsSorted xs

count-insert_sorted :
    (p : ℕ → Bool) (x : ℕ) (xs : List ℕ)
    → count p (insert_sorted x xs) ≡ (if p x then suc (count p xs) else count p xs)
unfolding insert_sorted
count-insert_sorted p x [] = refl
count-insert_sorted p x (y ∷ ys) = ground (arith, count-insert_sorted p x ys)

pub count-sort : (p : ℕ → Bool) (xs : List ℕ) → count p (sort xs) ≡ count p xs
unfolding sort
count-sort p [] = refl
count-sort p (x ∷ xs) = ground (arith, count-sort p xs, count-insert_sorted p x (sort xs))

length-insert_sorted : (x : ℕ) (xs : List ℕ) → length (insert_sorted x xs) ≡ suc (length xs)
unfolding insert_sorted
length-insert_sorted x [] = refl
length-insert_sorted x (y ∷ ys) = ground (arith, length-insert_sorted x ys)

pub length-sort : (xs : List ℕ) → length (sort xs) ≡ length xs
unfolding sort
length-sort [] = refl
length-sort (x ∷ xs) = omega (arith, length-sort xs, length-insert_sorted x (sort xs))

All-mono : (x y : ℕ) (xs : List ℕ) → x ≤ y → All (λ z. y ≤ z) xs → All (λ z. x ≤ z) xs
All-mono x y [] h a = tt
All-mono x y (z ∷ zs) h a = (omega (arith, h, a.0), All-mono x y zs h a.1)

All-insert_sorted :
    (y x : ℕ) (xs : List ℕ) → y ≤ x → All (λ z. y ≤ z) xs → All (λ z. y ≤ z) (insert_sorted x xs)
unfolding insert_sorted
All-insert_sorted y x [] h a = (h, tt)
All-insert_sorted y x (z ∷ zs) h a = elim (Bool-cases (leb x z)) [
  | inl e ↦ rw e (h, a)
  | inr e ↦ rw e (a.0, All-insert_sorted y x zs h a.1)
]

insert_sorted-IsSorted : (x : ℕ) (xs : List ℕ) → IsSorted xs → IsSorted (insert_sorted x xs)
unfolding insert_sorted
insert_sorted-IsSorted x [] s = (tt, tt)
insert_sorted-IsSorted x (y ∷ ys) s = elim (Bool-cases (leb x y)) [
  | inl e ↦ rw e ((ground (arith, e), All-mono x y ys (ground (arith, e)) s.0), s)
  | inr e ↦ rw e (All-insert_sorted y x ys (ground (arith, e)) s.0, insert_sorted-IsSorted x ys s.1)
]

pub sort-IsSorted : (xs : List ℕ) → IsSorted (sort xs)
unfolding sort
sort-IsSorted [] = tt
sort-IsSorted (x ∷ xs) = insert_sorted-IsSorted x (sort xs) (sort-IsSorted xs)

All-nth : (x : ℕ) (xs : List ℕ) (i : ℕ) → i < length xs → All (λ y. x ≤ y) xs → x ≤ nth i xs
unfolding nth
All-nth x [] i h a = absurd (omega (arith, h))
All-nth x (y ∷ ys) zero h a = a.0
All-nth x (y ∷ ys) (suc i) h a = All-nth x ys i (omega (arith, h)) a.1

none_below : (x v : ℕ) (xs : List ℕ) → v ≤ x → All (λ y. x ≤ y) xs → count (λ y. ltb y v) xs ≡ 0
none_below x v [] h a = refl
none_below x v (y ∷ ys) h a = ground (arith, a.0, h, none_below x v ys h a.1)

-- The element at a position of a sorted list has that many elements before it that are not greater, itself included, and at most as many that are less.
pub nth-rank :
    (xs : List ℕ) (i : ℕ)
    → IsSorted xs
    → i < length xs
    → (suc i ≤ count (λ y. leb y (nth i xs)) xs) × (count (λ y. ltb y (nth i xs)) xs ≤ i)
unfolding nth
nth-rank [] i s h = absurd (omega (arith, h))
nth-rank (x ∷ xs) zero s h = ground (arith, none_below x x xs (omega arith) s.0)
nth-rank (x ∷ xs) (suc i) s h =
    ground (arith, All-nth x xs i (omega (arith, h)) s.0, nth-rank xs i s.1 (omega (arith, h)))
