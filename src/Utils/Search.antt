-- ===== src/Utils/Search.antt =====
-- `std::string::find` and `find_last_of` for one character.

use mathlib.Core.Option
use rpi_webrtc_streamer.Base.{
  ℕ, suc, ◌<◌, ◌≡◌, refl, ap, subst, inl, inr, true, Option, none, some, [], ◌∷◌, ◌++◌, arith, ◌==◌,
  if◌then◌else◌, ==_iff, Bool-cases, length, take, drop, count, Text,
}

unfoldable pub find : ℕ → Text → Option ℕ
find c [] = none
find c (x ∷ xs) = if x == c then some 0 else Option.map suc (find c xs)

unfoldable pub find_last_of : ℕ → Text → Option ℕ
find_last_of c [] = none
find_last_of c (x ∷ xs) = elim (find_last_of c xs) [
  | some i ↦ some (suc i)
  | none ↦ if x == c then some 0 else none
]

-- How often the character stands in the text.
abbrev pub occurrences : ℕ → Text → ℕ
occurrences c xs = count (λ x. x == c) xs

pub find_last_of_absent : (c : ℕ) (xs : Text) → occurrences c xs ≡ 0 → find_last_of c xs ≡ none
unfolding find_last_of
find_last_of_absent c [] h = refl
find_last_of_absent c (x ∷ xs) h = ground (arith, find_last_of_absent c xs)

pub find_last_of_split :
    (c : ℕ) (xs ys : Text)
    → occurrences c ys ≡ 0
    → find_last_of c (xs ++ (c ∷ ys)) ≡ some (length xs)
unfolding find_last_of
find_last_of_split c [] ys h = ground (arith, find_last_of_absent c ys h)
find_last_of_split c (x ∷ xs) ys h = rw (find_last_of_split c xs ys h)

find_last_of-none : (c : ℕ) (xs : Text) → find_last_of c xs ≡ none → occurrences c xs ≡ 0
unfolding find_last_of
find_last_of-none c [] h = refl
find_last_of-none c (x ∷ xs) h = ground (arith, find_last_of-none c xs)

-- The text splits at its character `i`, the last that is `c`.
abbrev pub LastAt : ℕ → Text → ℕ → Type 0
LastAt c xs i =
    (take (suc i) xs ≡ take i xs ++ (c ∷ []))
    × (i < length xs)
    × (occurrences c (drop (suc i) xs) ≡ 0)

LastAt-cons : (c x : ℕ) (xs : Text) (i : ℕ) → LastAt c xs i → LastAt c (x ∷ xs) (suc i)
LastAt-cons c x xs i (e, lt, z) = (ap (◌∷◌ x) e, omega arith, z)

LastAt-head : (c x : ℕ) (xs : Text) → (x == c) ≡ true → occurrences c xs ≡ 0 → LastAt c (x ∷ xs) 0
LastAt-head c x xs e z = (ap (λ t. t ∷ []) ((==_iff x c).0 e), omega arith, z)

-- Where the last occurrence is, the text splits.
pub find_last_of-some : (c : ℕ) (xs : Text) (i : ℕ) → find_last_of c xs ≡ some i → LastAt c xs i
unfolding find_last_of
find_last_of-some c [] i h = cc
find_last_of-some c (x ∷ xs) i h = go (find_last_of c xs) refl (λ j. find_last_of-some c xs j) h
  where
    go :
        (r : Option ℕ)
        → find_last_of c xs ≡ r
        → ((j : ℕ) → find_last_of c xs ≡ some j → LastAt c xs j)
        → elim r [ some j ↦ some (suc j) | none ↦ if x == c then some 0 else none ] ≡ some i
        → LastAt c (x ∷ xs) i
    go (some j) e ih k = subst (LastAt c (x ∷ xs)) (ground arith) (LastAt-cons c x xs j (ih j e))
    go none e ih k = elim (Bool-cases (x == c)) [
      | inl here ↦
          subst (LastAt c (x ∷ xs)) (ground arith)
            (LastAt-head c x xs here (find_last_of-none c xs e))
      | inr away ↦ absurd (ground arith)
    ]

pub find_absent : (c : ℕ) (xs : Text) → occurrences c xs ≡ 0 → find c xs ≡ none
unfolding find
find_absent c [] h = refl
find_absent c (x ∷ xs) h = ground (arith, find_absent c xs)

pub find_split :
    (c : ℕ) (xs ys : Text) → occurrences c xs ≡ 0 → find c (xs ++ (c ∷ ys)) ≡ some (length xs)
unfolding find
find_split c [] ys h = ground arith
find_split c (x ∷ xs) ys h = ground (arith, find_split c xs ys)

pub take-length-append : (xs ys : Text) → take (length xs) (xs ++ ys) ≡ xs
take-length-append [] ys = refl
take-length-append (x ∷ xs) ys = ap (◌∷◌ x) (take-length-append xs ys)

pub drop-suc-append : (c : ℕ) (xs ys : Text) → drop (suc (length xs)) (xs ++ (c ∷ ys)) ≡ ys
drop-suc-append c [] ys = refl
drop-suc-append c (x ∷ xs) ys = drop-suc-append c xs ys

pub take-suc-append :
    (c : ℕ) (xs ys : Text) → take (suc (length xs)) (xs ++ (c ∷ ys)) ≡ xs ++ (c ∷ [])
take-suc-append c [] ys = refl
take-suc-append c (x ∷ xs) ys = ap (◌∷◌ x) (take-suc-append c xs ys)
