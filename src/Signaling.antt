-- ===== src/Signaling.antt =====
-- StreamerProxy and SignalingChannelHelper of src/streamer_signaling.cc: which channel has the one
-- stream session. A channel is named by a number. What is called outside (the streamer behind
-- SignalingInbound, the motion holder, the channel's own methods) is a list of effects, in order;
-- none of these calls comes back into the proxy before it returns.
pub mod Sessions
pub mod Lines
pub mod Direct
mod Tests
-- SessionConfig::Config of src/session_config.h
use rpi_webrtc_streamer.Base.{
  ℕ, ◌+◌, Bool, true, false, Option, none, some, List, [], ◌∷◌, ◌++◌, ◌==◌, if◌then◌else◌, update,
  Text,
}

pub record SessionConfigEntry : Type 0 where
  pub id : ℕ
  pub rtc_config : Text

pub data Effect : Type 0 where
  motion_stop : Effect
  motion_start : Effect
  peer_connected : ℕ → SessionConfigEntry → Effect
  peer_disconnected : ℕ → Effect
  peer_message : ℕ → Text → Effect
  channel_send : ℕ → ℕ → Text → Effect
  channel_report : ℕ → ℕ → Bool → Text → Effect

pub record StreamerProxy : Type 0 where
  pub active_signaling_outbound : Option ℕ
  pub active_peer_id : ℕ
  pub has_motion_holder : Bool

abbrev pub motion_effect : StreamerProxy → Effect → List Effect
motion_effect p e = if p.has_motion_holder then e ∷ [] else []

-- The two forms of StartStremerSignaling, which differ in what the streamer is told first.
abbrev pub start_with : Effect → ℕ → ℕ → StreamerProxy → Bool × List Effect × StreamerProxy
start_with greeting channel peer p = elim p.active_signaling_outbound [
  | some c ↦ (false, [], p)
  | none ↦ (
    true,
    motion_effect p motion_stop ++ (greeting ∷ []),
    record p { active_peer_id = peer; active_signaling_outbound = some channel },
  )
]

unfoldable pub start_streamer_signaling :
    ℕ → ℕ → SessionConfigEntry → StreamerProxy → Bool × List Effect × StreamerProxy
start_streamer_signaling channel peer config = start_with (peer_connected peer config) channel peer

unfoldable pub start_streamer_signaling_message :
    ℕ → ℕ → Text → StreamerProxy → Bool × List Effect × StreamerProxy
start_streamer_signaling_message channel peer message =
    start_with (peer_message peer message) channel peer

abbrev pub is_channel : Option ℕ → ℕ → Bool
is_channel none channel = false
is_channel (some c) channel = c == channel

unfoldable pub stop_streamer_signaling : ℕ → ℕ → StreamerProxy → List Effect × StreamerProxy
stop_streamer_signaling channel peer p =
    if is_channel p.active_signaling_outbound channel
    then (
      peer_disconnected peer ∷ motion_effect p motion_start,
      record p { active_signaling_outbound = none; active_peer_id = 0 },
    )
    else ([], p)

unfoldable pub proxy_message_from_peer : ℕ → Text → StreamerProxy → List Effect
proxy_message_from_peer peer message p = elim p.active_signaling_outbound [
  | none ↦ []
  | some c ↦ peer_message peer message ∷ []
]

-- SendMessageToPeer and ReportEvent of the proxy; without a channel it uses a null pointer.
unfoldable pub proxy_send_message_to_peer : ℕ → Text → StreamerProxy → Option (Bool × List Effect)
proxy_send_message_to_peer peer message p = elim p.active_signaling_outbound [
  | none ↦ none
  | some c ↦ some (true, channel_send c peer message ∷ [])
]

unfoldable pub proxy_report_event : ℕ → Bool → Text → StreamerProxy → Option (List Effect)
proxy_report_event peer drop_connection message p = elim p.active_signaling_outbound [
  | none ↦ none
  | some c ↦ some (channel_report c peer drop_connection message ∷ [])
]

pub record SignalingChannelHelper : Type 0 where
  pub streamsession_active : Bool
  pub peer_id : ℕ

-- The proxy and its channels.
pub record Signaling : Type 0 where
  pub proxy : StreamerProxy
  pub helpers : ℕ → SignalingChannelHelper

abbrev pub is_signaling_session_active : ℕ → Signaling → Bool
is_signaling_session_active channel s = (s.helpers channel).streamsession_active

abbrev pub get_active_peer_id : ℕ → Signaling → ℕ
get_active_peer_id channel s =
    if is_signaling_session_active channel s then (s.helpers channel).peer_id else 0

-- The end of StartSignalingSession, with the answer of the proxy.
abbrev pub session_started :
    ℕ → ℕ → Signaling → Bool × List Effect × StreamerProxy → Bool × List Effect × Signaling
session_started channel peer s (true, effects, p) = (
  true,
  effects,
  record s {
    proxy = p;
    helpers = update s.helpers channel (record { streamsession_active = true; peer_id = peer });
  },
)
session_started channel peer s (false, effects, p) = (
  false,
  effects,
  record s {
    proxy = p;
    helpers = update s.helpers channel (record (s.helpers channel) { peer_id = peer });
  },
)

unfoldable pub start_signaling_session :
    ℕ → ℕ → SessionConfigEntry → Signaling → Bool × List Effect × Signaling
unfolding start_streamer_signaling
start_signaling_session channel peer config s =
    session_started channel peer s (start_streamer_signaling channel peer config s.proxy)

unfoldable pub start_signaling_session_message :
    ℕ → ℕ → Text → Signaling → Bool × List Effect × Signaling
unfolding start_streamer_signaling_message
start_signaling_session_message channel peer message s =
    session_started channel peer s (start_streamer_signaling_message channel peer message s.proxy)

unfoldable pub stop_signaling_session : ℕ → Signaling → List Effect × Signaling
unfolding stop_streamer_signaling
stop_signaling_session channel s =
    let h = s.helpers channel in
    let (effects, p) = stop_streamer_signaling channel h.peer_id s.proxy in
    (
      effects,
      record s {
        proxy = p;
        helpers = update s.helpers channel (record h { streamsession_active = false });
      },
    )

unfoldable pub message_from_peer : ℕ → Text → Signaling → List Effect
unfolding proxy_message_from_peer
message_from_peer channel message s =
    if is_signaling_session_active channel s
    then proxy_message_from_peer (s.helpers channel).peer_id message s.proxy
    else []
