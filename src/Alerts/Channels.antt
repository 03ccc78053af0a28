-- ===== src/Alerts/Channels.antt =====
-- Lists of channel names (`uniqueChannels` of apps/engine/internal/alerts/dispatcher.go).
use infrawatch.Prelude.{
  ◌≡◌, refl, ◌≢◌, inl, inr, String, Bool, true, false, not, ◌&&◌, ◌||◌, List, [], ◌∷◌, ◌++◌, arith,
  str_eq, eq_iff, if◌then◌else◌, Bool-cases,
}
use infrawatch.Prelude.Text.{str_ltb, str_ltb_irrefl, str_ltb_total}

-- A name put into its place of a sorted list without repetitions.
pub insert_channel : String → List String → List String
insert_channel v [] = v ∷ []
insert_channel v (x ∷ xs) =
    if str_eq v x then x ∷ xs else (if str_ltb v x then v ∷ x ∷ xs else x ∷ insert_channel v xs)

-- The source collects the names other than "" in a set and sorts what is in it.
unfoldable pub unique_channels : List String → List String
unfolding insert_channel
unique_channels [] = []
unique_channels (v ∷ vs) =
    let rest = unique_channels vs in if str_eq v "" then rest else insert_channel v rest

abbrev pub contains : String → List String → Bool
contains v [] = false
contains v (x ∷ xs) = str_eq v x || contains v xs

-- Strictly increasing, and without the empty name.
abbrev pub IsSorted : List String → Type 0
IsSorted [] = Unit {0}
IsSorted (x ∷ []) = x ≢ ""
IsSorted (x ∷ y ∷ ys) = (x ≢ "") × (str_ltb x y ≡ true) × IsSorted (y ∷ ys)

-- What may stand in front of a sorted list.
abbrev Before : String → List String → Type 0
Before v [] = Unit {0}
Before v (x ∷ xs) = str_ltb v x ≡ true

IsSorted-cons :
    (x : String) (xs : List String) → x ≢ "" → Before x xs → IsSorted xs → IsSorted (x ∷ xs)
IsSorted-cons x [] n b s = n
IsSorted-cons x (y ∷ ys) n b s = (n, b, s)

IsSorted-uncons :
    (x : String) (xs : List String) → IsSorted (x ∷ xs) → (x ≢ "") × Before x xs × IsSorted xs
IsSorted-uncons x [] s = (s, tt, tt)
IsSorted-uncons x (y ∷ ys) s = s

Before-insert_channel :
    (x v : String) (xs : List String)
    → Before x xs
    → str_ltb x v ≡ true
    → Before x (insert_channel v xs)
unfolding insert_channel
Before-insert_channel x v [] b h = h
Before-insert_channel x v (y ∷ ys) b h = ground (arith, eq_iff v y)

insert_channel-IsSorted :
    (v : String) (xs : List String) → v ≢ "" → IsSorted xs → IsSorted (insert_channel v xs)
unfolding insert_channel
insert_channel-IsSorted v [] n s = n
insert_channel-IsSorted v (x ∷ xs) n s = elim (Bool-cases (str_eq v x)) [
  | inl e ↦ rw e s
  | inr e ↦ rw e (elim (Bool-cases (str_ltb v x)) [
    | inl l ↦ rw l (n, l, s)
    | inr l ↦
        let (m, b, t) = IsSorted-uncons x xs s in
        rw l (
          IsSorted-cons x (insert_channel v xs) m
            (Before-insert_channel x v xs b (ground (arith, str_ltb_total v x, eq_iff v x)))
            (insert_channel-IsSorted v xs n t))
  ])
]

-- The names come out sorted, each once, and the empty name never.
pub unique_channels-IsSorted : (vs : List String) → IsSorted (unique_channels vs)
unfolding unique_channels
unique_channels-IsSorted [] = tt
unique_channels-IsSorted (v ∷ vs) = elim (Bool-cases (str_eq v "")) [
  | inl e ↦ rw e (unique_channels-IsSorted vs)
  | inr e ↦ rw e (
      insert_channel-IsSorted v (unique_channels vs) (λ p. ground (arith, eq_iff v ""))
        (unique_channels-IsSorted vs))
]

contains-insert_channel :
    (w v : String) (xs : List String)
    → contains w (insert_channel v xs) ≡ (str_eq w v || contains w xs)
unfolding insert_channel
contains-insert_channel w v [] = refl
contains-insert_channel w v (x ∷ xs) =
    ground (arith, eq_iff w v, eq_iff v x, eq_iff w x, contains-insert_channel w v xs)

-- A name comes out exactly when it was there and is not empty.
pub contains-unique_channels :
    (w : String) (vs : List String)
    → contains w (unique_channels vs) ≡ (contains w vs && not (str_eq w ""))
unfolding unique_channels
contains-unique_channels w [] = refl
contains-unique_channels w (v ∷ vs) = ground (
  arith,
  eq_iff w v,
  eq_iff v "",
  eq_iff w "",
  contains-insert_channel w v (unique_channels vs),
  contains-unique_channels w vs,
)

insert_channel-Before : (v : String) (xs : List String) → Before v xs → insert_channel v xs ≡ v ∷ xs
unfolding insert_channel
insert_channel-Before v [] b = refl
insert_channel-Before v (x ∷ xs) b = ground (arith, eq_iff v x, str_ltb_irrefl v)

-- A sorted list is left as it is.
pub unique_channels_of_IsSorted : (vs : List String) → IsSorted vs → unique_channels vs ≡ vs
unfolding unique_channels
unique_channels_of_IsSorted [] s = refl
unique_channels_of_IsSorted (v ∷ vs) s =
    let (n, b, t) = IsSorted-uncons v vs s in
    ground (arith, eq_iff v "", unique_channels_of_IsSorted vs t, insert_channel-Before v vs b)

pub contains-append :
    (w : String) (xs ys : List String) → contains w (xs ++ ys) ≡ (contains w xs || contains w ys)
contains-append w [] ys = refl
contains-append w (x ∷ xs) ys = ground (arith, contains-append w xs ys)
