-- ===== src/Signaling/Sessions.antt =====
-- One session at a time: the channels, the proxy and the motion detection together.
pub mod Ends
pub mod Steps
pub mod Reachable
use rpi_webrtc_streamer.Base.{
  ℕ, ◌+◌, ◌≡◌, Bool, true, false, Option, none, some, List, [], ◌∷◌, ◌++◌, ◌==◌, if◌then◌else◌,
  Text,
}
use rpi_webrtc_streamer.Signaling.{
  SessionConfigEntry, Effect, motion_stop, motion_start, peer_connected, peer_disconnected,
  peer_message, channel_send, channel_report, StreamerProxy, SignalingChannelHelper, Signaling,
  motion_effect, is_channel, is_signaling_session_active, start_signaling_session,
  start_signaling_session_message, stop_signaling_session, message_from_peer,
  start_streamer_signaling, start_streamer_signaling_message, stop_streamer_signaling,
  proxy_message_from_peer,
}

-- The calls of the channels. A session is started only by a channel that has none; the others may
-- come at any time.
pub data Step : Signaling → List Effect → Signaling → Type 0 where
  start_step :
      (s : Signaling) (channel peer : ℕ) (config : SessionConfigEntry)
      → is_signaling_session_active channel s ≡ false
      → Step s
          (start_signaling_session channel peer config s).1
          (start_signaling_session channel peer config s).2
  start_message_step :
      (s : Signaling) (channel peer : ℕ) (message : Text)
      → is_signaling_session_active channel s ≡ false
      → Step s
          (start_signaling_session_message channel peer message s).1
          (start_signaling_session_message channel peer message s).2
  stop_step :
      (s : Signaling) (channel : ℕ)
      → Step s (stop_signaling_session channel s).0 (stop_signaling_session channel s).1
  message_step :
      (s : Signaling) (channel : ℕ) (message : Text)
      → Step s (message_from_peer channel message s) s

pub data Reach (s : Signaling) : List Effect → Signaling → Type 0 where
  here : Reach s [] s
  next :
      {log effects : List Effect} {t u : Signaling}
      → Reach s log t
      → Step t effects u
      → Reach s (log ++ effects) u

-- The channel with the session is that of the proxy, and its peer the active one.
pub record IsExclusive (s : Signaling) : Type 0 where
  pub owner :
      (k : ℕ) → is_signaling_session_active k s ≡ true → s.proxy.active_signaling_outbound ≡ some k
  pub owned :
      (k : ℕ)
      → s.proxy.active_signaling_outbound ≡ some k
      → (is_signaling_session_active k s ≡ true) × (s.proxy.active_peer_id ≡ (s.helpers k).peer_id)

-- What the streamer and the motion holder see: the motion detection stops, a peer connects, sends
-- messages and disconnects, and the motion detection starts again.
pub data Phase : Type 0 where
  idle : Phase
  motion_stopped : Phase
  in_session : ℕ → Phase
  ended : Phase

pub next_phase : Bool → Phase → Effect → Option Phase
next_phase true idle motion_stop = some motion_stopped
next_phase true motion_stopped (peer_connected p config) = some (in_session p)
next_phase true motion_stopped (peer_message p message) = some (in_session p)
next_phase false idle (peer_connected p config) = some (in_session p)
next_phase false idle (peer_message p message) = some (in_session p)
next_phase holder (in_session p) (peer_message q message) =
    if p == q then some (in_session p) else none
next_phase true (in_session p) (peer_disconnected q) = if p == q then some ended else none
next_phase false (in_session p) (peer_disconnected q) = if p == q then some idle else none
next_phase true ended motion_start = some idle
next_phase holder phase e = none

pub run_log : Bool → Phase → List Effect → Option Phase
unfolding next_phase
run_log holder phase [] = some phase
run_log holder phase (e ∷ es) = elim (next_phase holder phase e) [
  | none ↦ none
  | some phase' ↦ run_log holder phase' es
]

abbrev pub phase_of : StreamerProxy → Phase
phase_of p = elim p.active_signaling_outbound [ none ↦ idle | some c ↦ in_session p.active_peer_id ]
