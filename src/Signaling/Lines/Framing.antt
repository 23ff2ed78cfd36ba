-- ===== src/Signaling/Lines/Framing.antt =====
-- Lines out of chunks: how a text is cut into chunks does not matter, and messages come back.
use rpi_webrtc_streamer.Base.{
  ℕ, zero, suc, ◌<◌, ◌≡◌, refl, sym, ap, ◌∙◌, Bool, true, false, Option, none, some, List, [], ◌∷◌,
  ◌++◌, map, arith, ◌==◌, if◌then◌else◌, length, take, drop, length-drop, Text,
}
use mathlib.Core.Option
use rpi_webrtc_streamer.Utils.Search.{find}
use rpi_webrtc_streamer.Signaling.Lines.{
  direct_socket_delimiter, extract_lines, remove_all, trimmed_message,
}

-- The lines of a text, and what follows the last delimiter.
abbrev pub add_char : ℕ → List Text × Text → List Text × Text
add_char x ([], rest) = ([], x ∷ rest)
add_char x (l ∷ ls, rest) = ((x ∷ l) ∷ ls, rest)

abbrev pub lines_of : Text → List Text × Text
lines_of [] = ([], [])
lines_of (x ∷ xs) =
    let r = lines_of xs in if x == direct_socket_delimiter then ([] ∷ r.0, r.1) else add_char x r

find-none : (xs : Text) → find direct_socket_delimiter xs ≡ none → lines_of xs ≡ ([], xs)
unfolding find
find-none [] e = refl
find-none (x ∷ xs) e =
    go (x == direct_socket_delimiter) (find direct_socket_delimiter xs) (find-none xs) e
  where
    go :
        (b : Bool) (o : Option ℕ)
        → (o ≡ none → lines_of xs ≡ ([], xs))
        → (if b then some 0 else Option.map suc o) ≡ none
        → (if b then ([] ∷ (lines_of xs).0, (lines_of xs).1) else add_char x (lines_of xs))
          ≡ ([], x ∷ xs)
    go true o ih e = cc
    go false none ih e = ap (add_char x) (ih refl)
    go false (some q) ih e = cc

-- The first line of a text, and the lines of the rest.
abbrev FirstLine : Text → ℕ → Type 0
FirstLine xs pos =
    let r = lines_of (drop (suc pos) xs) in
    (lines_of xs ≡ (take pos xs ∷ r.0, r.1)) × (pos < length xs)

find-some : (xs : Text) (pos : ℕ) → find direct_socket_delimiter xs ≡ some pos → FirstLine xs pos
unfolding find
find-some [] pos e = cc
find-some (x ∷ xs) pos e =
    go (x == direct_socket_delimiter) (find direct_socket_delimiter xs) pos refl (find-some xs) e
  where
    go :
        (b : Bool) (o : Option ℕ) (pos : ℕ)
        → (x == direct_socket_delimiter) ≡ b
        → ((p : ℕ) → o ≡ some p → FirstLine xs p)
        → (if b then some 0 else Option.map suc o) ≡ some pos
        → FirstLine (x ∷ xs) pos
    go true o zero c ih e = (
      ap (λ b. if b then ([] ∷ (lines_of xs).0, (lines_of xs).1) else add_char x (lines_of xs)) c,
      omega arith,
    )
    go true o (suc p) c ih e = absurd (ground (arith, e))
    go false none pos c ih e = cc
    go false (some q) zero c ih e = absurd (ground (arith, e))
    go false (some q) (suc p) c ih e =
        let (same, lt) = ih p (ap some (ground (arith, e))) in
        (
          ap (λ b. if b then ([] ∷ (lines_of xs).0, (lines_of xs).1) else add_char x (lines_of xs))
                c
              ∙ ap (add_char x) same,
          omega arith,
        )

-- With fuel for each character, the loop gives the lines.
pub extract_lines-lines_of :
    (fuel : ℕ) (xs : Text) → length xs < fuel → extract_lines fuel xs ≡ some (lines_of xs)
unfolding extract_lines
extract_lines-lines_of zero xs lt = absurd (omega arith)
extract_lines-lines_of (suc fuel) xs lt =
    go (find direct_socket_delimiter xs) refl
      (λ pos. extract_lines-lines_of fuel (drop (suc pos) xs))
  where
    go :
        (o : Option ℕ)
        → find direct_socket_delimiter xs ≡ o
        → ((pos : ℕ)
            → length (drop (suc pos) xs) < fuel
            → extract_lines fuel (drop (suc pos) xs) ≡ some (lines_of (drop (suc pos) xs)))
        → elim o [
          | none ↦ some ([], xs)
          | some pos ↦ elim (extract_lines fuel (drop (suc pos) xs)) [
            | none ↦ none
            | some (lines, rest) ↦ some (take pos xs ∷ lines, rest)
          ]
        ]
          ≡ some (lines_of xs)
    go none e ih = ap some (sym (find-none xs e))
    go (some pos) e ih =
        let (first, lt') = find-some xs pos e in
        ap
          (λ (o : Option (List Text × Text)). elim o [
            | none ↦ none
            | some (lines, rest) ↦ some (take pos xs ∷ lines, rest)
          ])
          (ih pos (omega (arith, length-drop (suc pos) xs)))
        ∙ ap some (sym first)

pub lines_of-append :
    (xs ys : Text)
    → let r = lines_of xs in let q = lines_of (r.1 ++ ys) in lines_of (xs ++ ys) ≡ (r.0 ++ q.0, q.1)
lines_of-append [] ys = refl
lines_of-append (x ∷ xs) ys =
    go (x == direct_socket_delimiter) refl (lines_of xs) (lines_of-append xs ys)
  where
    split : Bool → List Text × Text → List Text × Text
    split b r = if b then ([] ∷ r.0, r.1) else add_char x r

    go :
        (b : Bool)
        → (x == direct_socket_delimiter) ≡ b
        → (r : List Text × Text)
        → lines_of (xs ++ ys) ≡ (r.0 ++ (lines_of (r.1 ++ ys)).0, (lines_of (r.1 ++ ys)).1)
        → let q = lines_of ((split b r).1 ++ ys) in
          split b (lines_of (xs ++ ys)) ≡ ((split b r).0 ++ q.0, q.1)
    go true c r ih = ap (split true) ih
    go false c ([], rest) ih =
        ap (split false) ih ∙ ap (λ b. split b (lines_of (rest ++ ys))) (sym c)
    go false c (l ∷ ls, rest) ih = ap (split false) ih

-- A message that was sent is the first line again.
lines_of-trimmed_message :
    (message rest : Text)
    → let q = lines_of rest in
      lines_of (trimmed_message message ++ rest)
      ≡ (remove_all direct_socket_delimiter message ∷ q.0, q.1)
lines_of-trimmed_message [] rest = refl
lines_of-trimmed_message (x ∷ xs) rest =
    go (x == direct_socket_delimiter) refl (lines_of-trimmed_message xs rest)
  where
    kept : Text
    kept = remove_all direct_socket_delimiter xs

    go :
        (b : Bool)
        → (x == direct_socket_delimiter) ≡ b
        → lines_of ((kept ++ (direct_socket_delimiter ∷ [])) ++ rest)
          ≡ (kept ∷ (lines_of rest).0, (lines_of rest).1)
        → lines_of (((if b then kept else x ∷ kept) ++ (direct_socket_delimiter ∷ [])) ++ rest)
          ≡ ((if b then kept else x ∷ kept) ∷ (lines_of rest).0, (lines_of rest).1)
    go true c ih = ih
    go false c ih =
        ap
          (λ b.
            let r = lines_of ((kept ++ (direct_socket_delimiter ∷ [])) ++ rest) in
            if b then ([] ∷ r.0, r.1) else add_char x r)
          c
        ∙ ap (add_char x) ih

abbrev pub concat : List Text → Text
concat [] = []
concat (t ∷ ts) = t ++ concat ts

-- All messages that were sent come back as lines, and nothing is left.
pub lines_of-sent :
    (messages : List Text)
    → lines_of (concat (map trimmed_message messages))
      ≡ (map (remove_all direct_socket_delimiter) messages, [])
lines_of-sent [] = refl
lines_of-sent (m ∷ ms) =
    lines_of-trimmed_message m (concat (map trimmed_message ms))
    ∙ ap (λ (q : List Text × Text). (remove_all direct_socket_delimiter m ∷ q.0, q.1))
        (lines_of-sent ms)
