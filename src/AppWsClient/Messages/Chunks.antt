-- ===== src/AppWsClient/Messages/Chunks.antt =====
-- Messages that arrive in pieces.
use rpi_webrtc_streamer.Base.{
  ℕ, suc, ◌+◌, ◌≤◌, ◌≡◌, sym, ap, ap₂, ◌∙◌, Bool, true, false, none, some, List, [], ◌∷◌, ◌++◌,
  arith, length, Text, is_empty,
}
use rpi_webrtc_streamer.AppWsClient.{Platform, AppEffect, AppWsClient}
use rpi_webrtc_streamer.AppWsClient.Messages.{cmd_of, with_command, on_chunk, on_message}
use rpi_webrtc_streamer.Signaling.Lines.Framing.{concat}
use mathlib.Core.List.{append_assoc, append-nil}

module _ (P : Platform) (channel sockid : ℕ) where
  -- The calls of OnMessage for some messages of a socket: what they send, and the state.
  unfoldable pub on_messages :
      List Text → AppWsClient P.Device → List AppEffect × AppWsClient P.Device
  unfolding on_message
  on_messages [] s = ([], s)
  on_messages (m ∷ ms) s =
      let (_, effects, s') = on_message P channel sockid m s in
      let (more, t) = on_messages ms s' in (effects ++ more, t)

  -- The command of a text, which is empty if it is no JSON value or has none.
  abbrev pub command_in : Text → Text
  command_in text = elim (P.parse text) [ none ↦ [] | some json ↦ cmd_of P channel json ]

  -- None of the pieces has a command of its own, and what has arrived is no JSON value after any.
  abbrev pub IsPartial : Text → List Text → Type 0
  IsPartial before [] = Unit
  IsPartial before (m ∷ ms) =
      (command_in m ≡ []) × (P.parse (before ++ m) ≡ none) × IsPartial (before ++ m) ms

  abbrev pub waiting : Text → ℕ → AppWsClient P.Device → AppWsClient P.Device
  waiting frames n s = record s { chunked_frames = frames; num_chunked_frames = n }

  on_message-no_command :
      (m : Text) (s : AppWsClient P.Device)
      → command_in m ≡ []
      → on_message P channel sockid m s ≡ on_chunk P channel sockid m s
  unfolding on_message
  on_message-no_command m s e = ground (arith, e)

  -- A piece after which the frames are no JSON value waits.
  on_message-waiting :
      (m before : Text) (n : ℕ) (s : AppWsClient P.Device)
      → command_in m ≡ []
      → P.parse (before ++ m) ≡ none
      → n ≤ 5
      → on_message P channel sockid m (waiting before n s)
        ≡ (true, [], waiting (before ++ m) (suc n) s)
  unfolding on_chunk
  on_message-waiting m before n s e failed small =
      on_message-no_command m (waiting before n s) e ∙ ground (arith, failed)

  -- Six pieces at most wait together.
  on_messages-waiting :
      (ms : List Text) (before : Text) (n : ℕ) (s : AppWsClient P.Device)
      → IsPartial before ms
      → n + length ms ≤ 6
      → on_messages ms (waiting before n s) ≡ ([], waiting (before ++ concat ms) (n + length ms) s)
  unfolding on_messages
  on_messages-waiting [] before n s partial small =
      ap₂ (λ t k. ([], waiting t k s)) (sym (append-nil before)) (omega arith)
  on_messages-waiting (m ∷ ms) before n s partial small =
      let first = on_message-waiting m before n s partial.0 partial.1 (omega arith) in
      ap after_first first
      ∙ on_messages-waiting ms (before ++ m) (suc n) s partial.2 (omega arith)
      ∙ ap₂ (λ t k. ([], waiting t k s)) (append_assoc before m (concat ms)) (omega arith)
    where
      after_first :
          Bool × List AppEffect × AppWsClient P.Device → List AppEffect × AppWsClient P.Device
      after_first o = (o.1 ++ (on_messages ms o.2).0, (on_messages ms o.2).1)

  -- A text with a command is run, and the frames that wait stay.
  on_message-command :
      (m : Text) (s : AppWsClient P.Device) (json : P.Value)
      → P.parse m ≡ some json
      → is_empty (cmd_of P channel json) ≡ false
      → on_message P channel sockid m s ≡ with_command P channel sockid json s
  unfolding on_message
  on_message-command m s json parsed has = ground (arith, parsed, has)

  -- The last piece completes the frames.
  on_message_complete :
      (m before : Text) (n : ℕ) (s : AppWsClient P.Device) (json : P.Value)
      → command_in m ≡ []
      → P.parse (before ++ m) ≡ some json
      → is_empty (cmd_of P channel json) ≡ false
      → on_message P channel sockid m (waiting before n s)
        ≡ with_command P channel sockid json (waiting [] 0 s)
  unfolding on_chunk
  on_message_complete m before n s json e parsed has =
      on_message-no_command m (waiting before n s) e ∙ ground (arith, parsed, has)

  on_messages-first :
      (ms : List Text) (s : AppWsClient P.Device)
      → IsPartial [] ms
      → length ms ≤ 6
      → on_messages ms (waiting [] 0 s) ≡ ([], waiting (concat ms) (length ms) s)
  on_messages-first ms s partial small =
      on_messages-waiting ms [] 0 s partial (omega arith)
      ∙ ap (λ k. ([], waiting (concat ms) k s)) (omega arith)

  -- A message with a command that arrives in seven pieces at most, when no frames wait, has the effect
  -- of the whole message: nothing is sent before its last piece, and that does what the message does.
  -- The pieces have no command of their own, and only the whole is a JSON value.
  pub on_messages-reassembled :
      (ms : List Text) (last : Text) (json : P.Value) (s : AppWsClient P.Device)
      → IsPartial [] ms
      → length ms ≤ 6
      → command_in last ≡ []
      → P.parse (concat ms ++ last) ≡ some json
      → is_empty (cmd_of P channel json) ≡ false
      → ((on_messages ms (waiting [] 0 s)).0 ≡ [])
        × (on_message P channel sockid last (on_messages ms (waiting [] 0 s)).1
            ≡ on_message P channel sockid (concat ms ++ last) (waiting [] 0 s))
  on_messages-reassembled ms last json s partial small e parsed has =
      let waits = on_messages-first ms s partial small in
      (
        ap (λ r. r.0) waits,
        ap (λ r. on_message P channel sockid last r.1) waits
            ∙ on_message_complete last (concat ms) (length ms) s json e parsed has
            ∙ sym (on_message-command (concat ms ++ last) (waiting [] 0 s) json parsed has),
      )

  -- A seventh piece after which the frames are still no JSON value drops them all, without an event:
  -- the client is as it was before the first.
  pub on_messages-dropped :
      (ms : List Text) (last : Text) (s : AppWsClient P.Device)
      → IsPartial [] ms
      → length ms ≡ 6
      → command_in last ≡ []
      → P.parse (concat ms ++ last) ≡ none
      → on_message P channel sockid last (on_messages ms (waiting [] 0 s)).1
        ≡ (true, [], waiting [] 0 s)
  unfolding on_chunk
  on_messages-dropped ms last s partial six e failed =
      ap (λ r. on_message P channel sockid last r.1) (on_messages-first ms s partial (omega arith))
      ∙ on_message-no_command last (waiting (concat ms) (length ms) s) e
      ∙ drop
    where
      drop :
          on_chunk P channel sockid last (waiting (concat ms) (length ms) s)
          ≡ (true, [], waiting [] 0 s)
      drop = ground (arith, failed, six)
