-- ===== src/Signaling/Direct/Reading.antt =====
-- What was sent to the direct socket server is read, however it arrives.
use rpi_webrtc_streamer.Base.{
  ℕ, ◌+◌, ◌≡◌, refl, sym, ap, subst, ◌∙◌, Bool, true, false, Option, none, some, List, [], ◌∷◌,
  ◌++◌, map, arith, ◌==◌, ◌≢◌, All, if◌then◌else◌, length, Text,
}
use mathlib.Core.List.{append_assoc, append-nil}
use rpi_webrtc_streamer.Signaling.{Effect, Signaling, message_from_peer, proxy_message_from_peer}
use rpi_webrtc_streamer.Signaling.Lines.{direct_socket_delimiter, remove_all, trimmed_message}
use rpi_webrtc_streamer.Signaling.Lines.Framing.{
  lines_of, add_char, concat, extract_lines-lines_of, lines_of-append, lines_of-sent,
}
use rpi_webrtc_streamer.Signaling.Direct.{
  DirectSocketServer, pass_lines, on_read, pass_checks, then_effects, with_effects,
}

-- Some calls of OnRead.
pub on_reads : ℕ → List (List Text) → DirectSocketServer → Option (List Effect × DirectSocketServer)
on_reads channel [] s = some ([], s)
on_reads channel (r ∷ rs) s = elim (on_read channel r s) [
  | none ↦ none
  | some (effects, s') ↦ elim (on_reads channel rs s') [
    | none ↦ none
    | some (more, t) ↦ some (effects ++ more, t)
  ]
]

rest_has_no_line : (xs : Text) → lines_of (lines_of xs).1 ≡ ([], (lines_of xs).1)
rest_has_no_line [] = refl
rest_has_no_line (x ∷ xs) =
    go (x == direct_socket_delimiter) refl (lines_of xs) (rest_has_no_line xs)
  where
    split : Bool → List Text × Text → List Text × Text
    split b r = if b then ([] ∷ r.0, r.1) else add_char x r

    go :
        (b : Bool)
        → (x == direct_socket_delimiter) ≡ b
        → (r : List Text × Text) → lines_of r.1 ≡ ([], r.1)
        → lines_of (split b r).1 ≡ ([], (split b r).1)
    go true c r ih = ih
    go false c ([], rest) ih = ap (λ b. split b (lines_of rest)) c ∙ ap (add_char x) ih
    go false c (l ∷ ls, rest) ih = ih

then_effects_assoc :
    (a b c : Option (List Effect))
    → then_effects a (then_effects b c) ≡ then_effects (then_effects a b) c
then_effects_assoc none b c = refl
then_effects_assoc (some x) none c = refl
then_effects_assoc (some x) (some y) none = refl
then_effects_assoc (some x) (some y) (some z) = ap some (sym (append_assoc x y z))

then_effects-nil : (a : Option (List Effect)) → a ≡ then_effects (some []) a
then_effects-nil none = refl
then_effects-nil (some x) = refl

pass_lines-append :
    (channel : ℕ) (s : Signaling) (xs ys : List Text)
    → pass_lines channel s (xs ++ ys)
      ≡ then_effects (pass_lines channel s xs) (pass_lines channel s ys)
pass_lines-append channel s [] ys = then_effects-nil (pass_lines channel s ys)
pass_lines-append channel s (x ∷ xs) ys =
    let first = pass_checks (message_from_peer channel x s) in
    ap (then_effects first) (pass_lines-append channel s xs ys)
    ∙ then_effects_assoc first (pass_lines channel s xs) (pass_lines channel s ys)

abbrev after_reads :
    ℕ → DirectSocketServer → List Text × Text → Option (List Effect × DirectSocketServer)
after_reads channel s q =
    with_effects (pass_lines channel s.signaling q.0) (record s { buffered_read = q.1 })

on_read_lem :
    (channel : ℕ) (received : List Text) (s : DirectSocketServer)
    → on_read channel received s
      ≡ after_reads channel s (lines_of (s.buffered_read ++ concat received))
unfolding on_read
on_read_lem channel received s =
    let buffer = s.buffered_read ++ concat received in
    ap
      (λ (o : Option (List Text × Text)). elim o [
        | none ↦ none
        | some (lines, rest) ↦
            with_effects (pass_lines channel s.signaling lines) (record s { buffered_read = rest })
      ])
      (extract_lines-lines_of (length buffer + 1) buffer (omega arith))

abbrev arrived : List (List Text) → Text
arrived [] = []
arrived (r ∷ rs) = concat r ++ arrived rs

-- The calls of OnRead act as one on all that arrives.
on_reads_lem :
    (channel : ℕ) (reads : List (List Text)) (s : DirectSocketServer)
    → lines_of s.buffered_read ≡ ([], s.buffered_read)
    → on_reads channel reads s ≡ after_reads channel s (lines_of (s.buffered_read ++ arrived reads))
unfolding on_reads
on_reads_lem channel [] s partial = sym (
    ap (λ t. after_reads channel s (lines_of t)) (append-nil s.buffered_read)
    ∙ ap (after_reads channel s) partial)
on_reads_lem channel (r ∷ rs) s partial =
    let first = lines_of (s.buffered_read ++ concat r) in
    let s' : DirectSocketServer = record s { buffered_read = first.1 } in
    let rest = lines_of (first.1 ++ arrived rs) in
    let whole : lines_of (s.buffered_read ++ (concat r ++ arrived rs))
        ≡ (first.0 ++ rest.0, rest.1) =
      ap lines_of (sym (append_assoc s.buffered_read (concat r) (arrived rs)))
      ∙ lines_of-append (s.buffered_read ++ concat r) (arrived rs) in
    let ih : on_reads channel rs s' ≡ after_reads channel s' rest =
      on_reads_lem channel rs s' (rest_has_no_line (s.buffered_read ++ concat r)) in
    ap (after_first rs) (on_read_lem channel r s)
    ∙ joined (pass_lines channel s.signaling first.0) (pass_lines channel s.signaling rest.0) s' _
        ih
    ∙ ap (λ e. with_effects e (record s { buffered_read = rest.1 }))
        (sym (pass_lines-append channel s.signaling first.0 rest.0))
    ∙ ap (after_reads channel s) (sym whole)
  where
    then_more :
        List Effect
        → Option (List Effect × DirectSocketServer)
        → Option (List Effect × DirectSocketServer)
    then_more effects o = elim o [ none ↦ none | some (more, t) ↦ some (effects ++ more, t) ]

    after_first :
        List (List Text)
        → Option (List Effect × DirectSocketServer)
        → Option (List Effect × DirectSocketServer)
    after_first rs o = elim o [
      | none ↦ none
      | some (effects, s') ↦ then_more effects (on_reads channel rs s')
    ]

    with_more :
        (effects : List Effect) (g : Option (List Effect)) (t : DirectSocketServer)
        → then_more effects (with_effects g t) ≡ with_effects (then_effects (some effects) g) t
    with_more effects none t = refl
    with_more effects (some more) t = refl

    joined :
        (f g : Option (List Effect)) (s' t : DirectSocketServer)
        → on_reads channel rs s' ≡ with_effects g t
        → after_first rs (with_effects f s') ≡ with_effects (then_effects f g) t
    joined none g s' t ih = refl
    joined (some effects) g s' t ih = ap (then_more effects) ih ∙ with_more effects g t

-- The calls of MessageFromPeer for some messages, when no check fails.
abbrev pub passed : ℕ → Signaling → List Text → List Effect
passed channel s [] = []
passed channel s (m ∷ ms) = message_from_peer channel m s ++ passed channel s ms

pass_checks-message :
    (channel : ℕ) (m : Text) (s : Signaling)
    → m ≢ []
    → pass_checks (message_from_peer channel m s) ≡ some (message_from_peer channel m s)
unfolding message_from_peer proxy_message_from_peer
pass_checks-message channel [] s full = absurd (full refl)
pass_checks-message channel (x ∷ xs) s full = ground arith

pass_lines-passed :
    (channel : ℕ) (s : Signaling) (messages : List Text)
    → All (λ m. remove_all direct_socket_delimiter m ≢ []) messages
    → pass_lines channel s (map (remove_all direct_socket_delimiter) messages)
      ≡ some (passed channel s (map (remove_all direct_socket_delimiter) messages))
pass_lines-passed channel s [] full = refl
pass_lines-passed channel s (m ∷ ms) full =
    rw
      (
        pass_checks-message channel (remove_all direct_socket_delimiter m) s full.0,
        pass_lines-passed channel s ms full.1,
      )
      refl

-- Messages that SendMessageToPeer has framed, none of them empty or of newlines only, in whatever
-- pieces their bytes arrive, are passed on one by one and in order by the calls of OnRead, without
-- their newlines; nothing is left in the buffer, if it was empty before.
pub on_reads-trimmed_message :
    (channel : ℕ) (messages : List Text) (reads : List (List Text)) (s : DirectSocketServer)
    → s.buffered_read ≡ []
    → All (λ m. remove_all direct_socket_delimiter m ≢ []) messages
    → arrived reads ≡ concat (map trimmed_message messages)
    → on_reads channel reads s
      ≡ some (
        passed channel s.signaling (map (remove_all direct_socket_delimiter) messages),
        record s { buffered_read = [] },
      )
on_reads-trimmed_message channel messages reads s empty full sent =
    on_reads_lem channel reads s (subst (λ t. lines_of t ≡ ([], t)) (sym empty) refl)
    ∙ ap (λ t. after_reads channel s (lines_of t)) (ap (λ b. b ++ arrived reads) empty ∙ sent)
    ∙ ap (after_reads channel s) (lines_of-sent messages)
    ∙ ap (λ e. with_effects e (record s { buffered_read = [] }))
        (pass_lines-passed channel s.signaling messages full)
