-- ===== src/Anomaly/Slots.antt =====
-- Lists under reads and writes at an index, for the ring of apps/engine/internal/anomaly/latency.go.
use infrawatch.Prelude.{
  ◌≡◌, refl, ap, ℕ, zero, suc, ◌<◌, ◌≤◌, List, [], ◌∷◌, ◌++◌, arith, length, drop,
}
use infrawatch.Anomaly.{replicate, set_nth, take}

pub length-replicate : (n x : ℕ) → length (replicate n x) ≡ n
length-replicate zero x = refl
length-replicate (suc n) x = ap suc (length-replicate n x)

pub length-set_nth : (i x : ℕ) (xs : List ℕ) → length (set_nth i x xs) ≡ length xs
length-set_nth i x [] = refl
length-set_nth zero x (y ∷ ys) = refl
length-set_nth (suc i) x (y ∷ ys) = ap suc (length-set_nth i x ys)

pub length-take : (n : ℕ) (xs : List ℕ) → n ≤ length xs → length (take n xs) ≡ n
length-take zero xs h = refl
length-take (suc n) [] h = absurd (omega (arith, h))
length-take (suc n) (x ∷ xs) h = ap suc (length-take n xs (omega (arith, h)))

pub take-length : (n : ℕ) (xs : List ℕ) → length xs ≡ n → take n xs ≡ xs
take-length zero [] h = refl
take-length zero (x ∷ xs) h = absurd (omega (arith, h))
take-length (suc n) [] h = refl
take-length (suc n) (x ∷ xs) h = ap (λ ys. x ∷ ys) (take-length n xs (omega (arith, h)))

pub take-set_nth :
    (i x : ℕ) (xs : List ℕ) → i < length xs → take (suc i) (set_nth i x xs) ≡ take i xs ++ x ∷ []
take-set_nth i x [] h = absurd (omega (arith, h))
take-set_nth zero x (y ∷ ys) h = refl
take-set_nth (suc i) x (y ∷ ys) h = ap (λ zs. y ∷ zs) (take-set_nth i x ys (omega (arith, h)))

pub drop-set_nth : (i x : ℕ) (xs : List ℕ) → drop (suc i) (set_nth i x xs) ≡ drop (suc i) xs
drop-set_nth i x [] = refl
drop-set_nth zero x (y ∷ ys) = refl
drop-set_nth (suc i) x (y ∷ ys) = drop-set_nth i x ys

pub drop-length : (n : ℕ) (xs : List ℕ) → length xs ≡ n → drop n xs ≡ []
drop-length zero [] h = refl
drop-length zero (x ∷ xs) h = absurd (omega (arith, h))
drop-length (suc n) [] h = refl
drop-length (suc n) (x ∷ xs) h = drop-length n xs (omega (arith, h))

pub append-nil : (xs : List ℕ) → xs ++ [] ≡ xs
append-nil [] = refl
append-nil (x ∷ xs) = ap (λ l. x ∷ l) (append-nil xs)

-- Dropping one more is dropping the head of what is left.
pub drop-append :
    (i : ℕ) (xs ys : List ℕ) → i < length xs → drop 1 (drop i xs ++ ys) ≡ drop (suc i) xs ++ ys
drop-append i [] ys h = absurd (omega (arith, h))
drop-append zero (x ∷ xs) ys h = refl
drop-append (suc i) (x ∷ xs) ys h = drop-append i xs ys (omega (arith, h))

pub append_assoc : (xs ys zs : List ℕ) → (xs ++ ys) ++ zs ≡ xs ++ (ys ++ zs)
append_assoc [] ys zs = refl
append_assoc (x ∷ xs) ys zs = ap (λ l. x ∷ l) (append_assoc xs ys zs)
