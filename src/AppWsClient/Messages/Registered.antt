-- ===== src/AppWsClient/Messages/Registered.antt =====
-- A session of the web socket channel belongs to the registered client.
pub mod Commands
pub mod Reached
use rpi_webrtc_streamer.Base.{
  ℕ, ◌≡◌, sym, ap, subst, ◌∙◌, Bool, true, false, List, arith, if_split, update_self,
}
use rpi_webrtc_streamer.Client.ClientInfo.{
  AppClientInfo, register, disconnect, is_registered, in_registered, reset_client,
}
use rpi_webrtc_streamer.Signaling.{
  SessionConfigEntry, Effect, Signaling, StreamerProxy, session_started,
  is_signaling_session_active, start_signaling_session, stop_signaling_session,
  start_streamer_signaling,
}
use rpi_webrtc_streamer.AppWsClient.{Platform, AppEffect, AppWsClient, reset_and_stop}
use rpi_webrtc_streamer.AppWsClient.Commands.{
  Outcome, start_registered, register_client, command_register, send_bye, send_text, command_send,
  command_message,
}
use rpi_webrtc_streamer.AppWsClient.Requests.{command_request}
use rpi_webrtc_streamer.AppWsClient.Requests.Answered.{SameClient, command_request-Answers}
use rpi_webrtc_streamer.AppWsClient.Messages.{
  run_command, with_command, on_chunk, on_message, drop_client, on_disconnect, on_drop, cmd_of,
}

-- What the invariant is about: the registration and the sessions.
abbrev pub HasClient : ℕ → AppClientInfo → Signaling → Type 0
HasClient channel c signaling =
    is_signaling_session_active channel signaling ≡ true
    → (in_registered c.state ≡ true) × ((signaling.helpers channel).peer_id ≡ c.client_id)

pub register-accepted :
    (sock room client : ℕ) (c : AppClientInfo)
    → (register sock room client c).0 ≡ true
    → (in_registered (register sock room client c).1.state ≡ true)
      × ((register sock room client c).1.client_id ≡ client)
unfolding register
register-accepted sock room client c h = ground (arith, h)

pub register-rejected :
    (sock room client : ℕ) (c : AppClientInfo)
    → (register sock room client c).0 ≡ false
    → (register sock room client c).1 ≡ c
unfolding register
register-rejected sock room client c h = ground (arith, h)

-- A registered client that registers again keeps its registration.
pub register-kept :
    (sock room client : ℕ) (c : AppClientInfo)
    → (register sock room client c).0 ≡ true
    → in_registered c.state ≡ true
    → (register sock room client c).1 ≡ c
unfolding register
register-kept sock room client c h registered = ground (arith, h, registered)

session_started-peer :
    (channel client : ℕ) (s : Signaling) (o : Bool × List Effect × StreamerProxy)
    → ((session_started channel client s o).2.helpers channel).peer_id ≡ client
session_started-peer channel client s (true, effects, p) =
    ap (λ h. h.peer_id) (update_self s.helpers channel _)
session_started-peer channel client s (false, effects, p) =
    ap (λ h. h.peer_id) (update_self s.helpers channel _)

pub start-HasClient :
    (channel client : ℕ) (config : SessionConfigEntry) (c : AppClientInfo) (s : Signaling)
    → in_registered c.state ≡ true
    → c.client_id ≡ client
    → HasClient channel c (start_signaling_session channel client config s).2
unfolding start_signaling_session start_streamer_signaling
start-HasClient channel client config c s registered same on = (
  registered,
  session_started-peer channel client s (start_streamer_signaling channel client config s.proxy)
      ∙ sym same,
)

pub stop-off :
    (channel : ℕ) (s : Signaling)
    → is_signaling_session_active channel (stop_signaling_session channel s).1 ≡ false
unfolding stop_signaling_session
stop-off channel s = ap (λ h. h.streamsession_active) (update_self s.helpers channel _)

off-HasClient :
    (channel : ℕ) (c : AppClientInfo) (s : Signaling)
    → is_signaling_session_active channel s ≡ false
    → HasClient channel c s
off-HasClient channel c s off on = absurd (ground (arith, off, on))

disconnect-rejected :
    (sock : ℕ) (c : AppClientInfo) → (disconnect sock c).0 ≡ false → (disconnect sock c).1 ≡ c
unfolding disconnect
disconnect-rejected sock c h = ground (arith, h)

module _ {Device : Type 0} (channel : ℕ) where
  abbrev pub IsOwned : AppWsClient Device → Type 0
  IsOwned s = HasClient channel s.app_client s.signaling

  abbrev pub IsOff : AppWsClient Device → Type 0
  IsOff s = is_signaling_session_active channel s.signaling ≡ false

  pub IsOff-IsOwned : (s : AppWsClient Device) → IsOff s → IsOwned s
  IsOff-IsOwned s off = off-HasClient channel s.app_client s.signaling off

  pub reset_and_stop-IsOff : (s : AppWsClient Device) → IsOff (reset_and_stop channel s).1
  unfolding reset_and_stop reset_client
  reset_and_stop-IsOff s =
      if_split (λ (r : List AppEffect × AppWsClient Device). IsOff r.1)
        (is_signaling_session_active channel s.signaling) (λ e. stop-off channel s.signaling) λ e. e

  pub drop_client-IsOwned :
      (sockid : ℕ) (s : AppWsClient Device) → IsOwned s → IsOwned (drop_client channel sockid s).1
  unfolding drop_client
  drop_client-IsOwned sockid s owned =
      let s' : AppWsClient Device = record s { app_client = (disconnect sockid s.app_client).1 } in
      if_split (λ (r : List AppEffect × AppWsClient Device). IsOwned r.1)
        (disconnect sockid s.app_client).0
        (λ e. IsOff-IsOwned (reset_and_stop channel s').1 (reset_and_stop-IsOff s'))
        λ e.
          subst (λ c. HasClient channel c s.signaling)
            (sym (disconnect-rejected sockid s.app_client e)) owned
