-- ===== src/Signaling/Tests.antt =====
-- Runs of the signaling channels and of the direct socket.
use rpi_webrtc_streamer.Base.{ℕ, ◌≡◌, refl, true, false, none, some, List, [], ◌∷◌, map, Text}
use rpi_webrtc_streamer.Signaling.{
  Effect, motion_stop, motion_start, peer_connected, peer_disconnected, peer_message, StreamerProxy,
  SignalingChannelHelper, Signaling, is_channel, is_signaling_session_active,
  start_signaling_session, stop_signaling_session, message_from_peer, proxy_message_from_peer,
  start_streamer_signaling,
}
use rpi_webrtc_streamer.Signaling.Sessions.{
  Reach, here, next, start_step, stop_step, message_step, idle, run_log, phase_of,
}
use rpi_webrtc_streamer.Signaling.Sessions.Reachable.{Reach-IsExclusive}
use rpi_webrtc_streamer.Signaling.Lines.{extract_lines, remove_all}
use rpi_webrtc_streamer.Utils.Search.{find}
use rpi_webrtc_streamer.Signaling.Direct.{
  DirectSocketServer, close_socket, session_effect, on_read, on_accept, empty_config,
}
use rpi_webrtc_streamer.Signaling.Direct.Reading.{passed, on_reads, on_reads-trimmed_message}
use rpi_webrtc_streamer.Signaling.Direct.Accepting.{Serves, on_accept_takes_over}

abbrev free_proxy : StreamerProxy
free_proxy = record {
  active_signaling_outbound = none;
  active_peer_id = 0;
  has_motion_holder = true;
}

abbrev free_helpers : ℕ → SignalingChannelHelper
free_helpers k = record { streamsession_active = false; peer_id = 0 }

abbrev no_sessions : Signaling
no_sessions = record { proxy = free_proxy; helpers = free_helpers }

-- Channel 1 starts a session with the peer 7, channel 2 is refused, and then channel 1 stops.
abbrev one : Signaling
one = (start_signaling_session 1 7 empty_config no_sessions).2

abbrev refused : Signaling
refused = (start_signaling_session 2 100 empty_config one).2

abbrev stopped : Signaling
stopped = (stop_signaling_session 1 refused).1

abbrev session_log : List Effect
session_log =
    motion_stop
    ∷ peer_connected 7 empty_config
    ∷ peer_message 7 (b'a' ∷ [])
    ∷ peer_disconnected 7
    ∷ motion_start
    ∷ []

two_channels : Reach no_sessions session_log stopped
unfolding start_signaling_session stop_signaling_session message_from_peer
two_channels =
    next
      (next
        (next (next here (start_step no_sessions 1 7 empty_config refl))
          (start_step one 2 100 empty_config refl))
        (message_step refused 1 (b'a' ∷ [])))
      (stop_step refused 1)

Reach-IsExclusive_example :
    (is_signaling_session_active 1 stopped ≡ is_channel stopped.proxy.active_signaling_outbound 1)
    × (run_log true idle session_log ≡ some (phase_of stopped.proxy))
Reach-IsExclusive_example =
    Reach-IsExclusive free_proxy free_helpers stopped session_log 1 refl (λ j. refl) two_channels

abbrev direct : DirectSocketServer
direct = record {
  signaling = (start_signaling_session 2 100 empty_config no_sessions).2;
  direct_socket = some 5;
  socket_peer_id = 100;
  buffered_read = [];
  last_reject_time_ms = 10000;
  connection_reject_count = 0;
}

-- Two messages, in three pieces and two calls.
abbrev two_messages : List Text
two_messages = (b'h' ∷ b'i' ∷ []) ∷ (b'y' ∷ 10 ∷ b'o' ∷ []) ∷ []

abbrev pieces : List (List Text)
pieces = ((b'h' ∷ []) ∷ (b'i' ∷ 10 ∷ b'y' ∷ []) ∷ []) ∷ ((b'o' ∷ 10 ∷ []) ∷ []) ∷ []

on_reads-trimmed_message_example :
    on_reads 2 pieces direct
    ≡ some (passed 2 direct.signaling (map (remove_all 10) two_messages), direct)
on_reads-trimmed_message_example =
    on_reads-trimmed_message 2 two_messages pieces direct refl ((λ e. cc), ((λ e. cc), tt)) refl

-- An empty line ends the process while a session is active.
empty_line_aborts : on_read 2 ((10 ∷ []) ∷ []) direct ≡ none
unfolding on_read extract_lines find message_from_peer proxy_message_from_peer
    start_signaling_session start_streamer_signaling
empty_line_aborts = refl

direct-Serves : Serves 2 5 direct
unfolding start_signaling_session start_streamer_signaling
direct-Serves = record { active = refl; holds = refl; connected = refl }

on_accept_takes_over_example :
    (s₁ : DirectSocketServer) × (s₂ : DirectSocketServer) × (s₃ : DirectSocketServer) × (on_accept 2
        6 15000 direct
      ≡ some (close_socket 6 ∷ [], s₁))
    × Serves 2 5 s₁
    × (on_accept 2 7 16000 s₁
        ≡ some (
          close_socket 7
              ∷ (close_socket 5 ∷ map session_effect (stop_signaling_session 2 direct.signaling).0),
          s₂,
        ))
    × (is_signaling_session_active 2 s₂.signaling ≡ false)
    × (s₂.connection_reject_count ≡ 1)
    × (on_accept 2 8 17000 s₂
        ≡ some (map session_effect (start_signaling_session 2 100 empty_config s₂.signaling).1, s₃))
    × Serves 2 8 s₃
on_accept_takes_over_example =
    on_accept_takes_over 2 6 7 8 15000 16000 17000 5 direct direct-Serves refl refl
