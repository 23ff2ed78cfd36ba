-- ===== src/Signaling/Direct.antt =====
-- DirectSocketServer of src/direct_socket.cc. A socket is named by a number. `channel` names the
-- server as a channel of the proxy. What Recv returns in a call of OnRead, up to its first result
-- that is not positive, is a list of texts; a time is that of the call. `none` stands for the use of
-- a null pointer, and for the end of the process at a failed RTC_CHECK of the streamer.
pub mod Reading
pub mod Accepting
use rpi_webrtc_streamer.Base.{
  ℕ, ◌+◌, ◌^◌, Bool, not, ◌||◌, Option, none, some, List, [], ◌∷◌, ◌++◌, map, ltb, leb,
  if◌then◌else◌, length, sub_size, Text,
}
use rpi_webrtc_streamer.Signaling.{
  SessionConfigEntry, Effect, peer_message, Signaling, is_signaling_session_active,
  start_signaling_session, stop_signaling_session, message_from_peer,
}
use rpi_webrtc_streamer.Signaling.Lines.{extract_lines, trimmed_message}
use rpi_webrtc_streamer.Signaling.Lines.Framing.{concat}

abbrev pub force_connection_drop_valid_duration : ℕ
force_connection_drop_valid_duration = 3000

abbrev pub force_connection_drop_trycount_threshold : ℕ
force_connection_drop_trycount_threshold = 3

abbrev pub directsocket_fake_peerid : ℕ
directsocket_fake_peerid = 100

abbrev pub empty_config : SessionConfigEntry
empty_config = record { id = 0; rtc_config = [] }

pub data SocketEffect : Type 0 where
  session_effect : Effect → SocketEffect
  close_socket : ℕ → SocketEffect
  send_socket : ℕ → Text → SocketEffect
  post_release : SocketEffect

pub record DirectSocketServer : Type 0 where
  pub signaling : Signaling
  pub direct_socket : Option ℕ
  pub socket_peer_id : ℕ
  pub buffered_read : Text
  pub last_reject_time_ms : ℕ
  pub connection_reject_count : ℕ

-- rtc::TimeDiff(now, then) < duration, a signed comparison of 64 bits
abbrev pub is_within : ℕ → ℕ → ℕ → Bool
is_within now then_ duration =
    ltb (sub_size now then_) duration || leb (2 ^ 63) (sub_size now then_)

-- `RTC_CHECK(!message.empty())` of Streamer::OnMessageFromPeer, for each message that reaches it.
abbrev pub pass_checks : List Effect → Option (List Effect)
pass_checks [] = some []
pass_checks (peer_message peer [] ∷ effects) = none
pass_checks (e ∷ effects) = elim (pass_checks effects) [ none ↦ none | some es ↦ some (e ∷ es) ]

abbrev pub then_effects : Option (List Effect) → Option (List Effect) → Option (List Effect)
then_effects none more = none
then_effects (some es) none = none
then_effects (some es) (some more) = some (es ++ more)

abbrev pub with_effects :
    Option (List Effect) → DirectSocketServer → Option (List Effect × DirectSocketServer)
with_effects none s = none
with_effects (some es) s = some (es, s)

module _ (channel : ℕ) where
  unfoldable pub on_close :
      Option ℕ → DirectSocketServer → Option (List SocketEffect × DirectSocketServer)
  on_close none s = none
  on_close (some socket) s =
      let (effects, signaling) = stop_signaling_session channel s.signaling in
      some (close_socket socket ∷ map session_effect effects, record s { signaling = signaling })

  -- The end of OnAccept when no session was active.
  abbrev pub accepted :
      ℕ
      → DirectSocketServer
      → Bool × List Effect × Signaling
      → List SocketEffect × DirectSocketServer
  accepted incoming s (started, effects, signaling) =
      if started
      then (
        map session_effect effects,
        record s { signaling = signaling; direct_socket = some incoming },
      )
      else (
        map session_effect effects ++ (close_socket incoming ∷ []),
        record s { signaling = signaling },
      )

  abbrev pub then_after :
      List SocketEffect
      → Option (List SocketEffect × DirectSocketServer)
      → Option (List SocketEffect × DirectSocketServer)
  then_after effects none = none
  then_after effects (some (more, s)) = some (effects ++ more, s)

  unfoldable pub on_accept :
      ℕ → ℕ → DirectSocketServer → Option (List SocketEffect × DirectSocketServer)
  unfolding on_close
  on_accept incoming now s =
      if not (is_signaling_session_active channel s.signaling)
      then some (
          accepted incoming
            (record s { connection_reject_count = 0; socket_peer_id = directsocket_fake_peerid })
            (start_signaling_session channel directsocket_fake_peerid empty_config s.signaling))
      else (if is_within now s.last_reject_time_ms force_connection_drop_valid_duration
          then then_after (close_socket incoming ∷ []) (
              on_close s.direct_socket (record s {
                connection_reject_count = s.connection_reject_count + 1;
                last_reject_time_ms = now;
              }))
          else some (
            close_socket incoming ∷ [],
            record s { connection_reject_count = 0; last_reject_time_ms = now },
          ))

  -- MessageFromPeer for the lines that were extracted.
  abbrev pub pass_lines : Signaling → List Text → Option (List Effect)
  pass_lines s [] = some []
  pass_lines s (line ∷ lines) =
      then_effects (pass_checks (message_from_peer channel line s)) (pass_lines s lines)

  unfoldable pub on_read :
      List Text → DirectSocketServer → Option (List Effect × DirectSocketServer)
  on_read received s =
      let string_buffer = s.buffered_read ++ concat received in
      elim (extract_lines (length string_buffer + 1) string_buffer) [
        | none ↦ none
        | some (lines, rest) ↦
            with_effects (pass_lines s.signaling lines) (record s { buffered_read = rest })
      ]

  unfoldable pub socket_send_message_to_peer :
      ℕ → Text → DirectSocketServer → Option (List SocketEffect)
  socket_send_message_to_peer peer message s = elim s.direct_socket [
    | none ↦ none
    | some socket ↦ some (send_socket socket (trimmed_message message) ∷ [])
  ]

  unfoldable pub socket_report_event : ℕ → Bool → Text → DirectSocketServer → List SocketEffect
  socket_report_event peer drop_connection message s =
      if drop_connection then post_release ∷ [] else []

  -- OnMessage, at the message that ReportEvent has posted. StopSignalingSession is called twice.
  unfoldable pub on_release : DirectSocketServer → Option (List SocketEffect × DirectSocketServer)
  unfolding on_close
  on_release s =
      if is_signaling_session_active channel s.signaling
      then elim (on_close s.direct_socket s) [
        | none ↦ none
        | some (effects, s') ↦
            let (more, signaling) = stop_signaling_session channel s'.signaling in
            some (effects ++ map session_effect more, record s' { signaling = signaling })
      ]
      else some ([], s)
