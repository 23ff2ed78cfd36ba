-- ===== src/AppWsClient/Messages/Registered/Reached.antt =====
-- Whatever the web sockets and the other channels do, a session belongs to the registered client.
use rpi_webrtc_streamer.Base.{
  ℕ, ◌≡◌, ◌≢◌, sym, ap, ◌∙◌, Bool, true, false, List, [], ◌∷◌, ◌++◌, arith, if_split, if_cases,
  option_cases, ltb, is_empty, same_text, Text, update_ne,
}
use rpi_webrtc_streamer.Client.ClientInfo.{disconnect, is_registered, get_sock_id}
use rpi_webrtc_streamer.Signaling.{
  get_active_peer_id, SessionConfigEntry, Effect, Signaling, StreamerProxy, session_started,
  is_signaling_session_active, start_signaling_session, stop_signaling_session,
  start_streamer_signaling,
}
use rpi_webrtc_streamer.AppWsClient.{Platform, AppEffect, AppWsClient, send_message_to, text_object}
use rpi_webrtc_streamer.AppWsClient.Commands.{Outcome}
use rpi_webrtc_streamer.AppWsClient.Messages.{
  client_send_message_to_peer, on_connect, run_command, with_command, on_chunk, on_message,
  drop_client, on_disconnect, on_drop, cmd_of,
}
use rpi_webrtc_streamer.AppWsClient.Keys.{
  key_cmd, value_cmd_register, value_cmd_send, value_cmd_message, value_cmd_request,
  max_chunked_frames, key_send_message,
}
use rpi_webrtc_streamer.SessionConfig.{remove_config}
use rpi_webrtc_streamer.AppWsClient.Messages.Registered.{
  HasClient, IsOwned, IsOff, drop_client-IsOwned, IsOff-IsOwned, reset_and_stop-IsOff,
}
use rpi_webrtc_streamer.AppWsClient.Messages.Registered.Commands.{
  Owned, command_register-IsOwned, command_send-IsOwned, command_message-IsOwned,
  command_request-IsOwned,
}

module _ (P : Platform) (channel : ℕ) where
  run_command-IsOwned :
      (sockid : ℕ) (cmd : Text) (json : P.Value) (s : AppWsClient P.Device)
      → IsOwned channel s
      → Owned P channel (run_command P channel sockid cmd json s)
  unfolding run_command
  run_command-IsOwned sockid cmd json s owned =
      if_cases Goal (same_text cmd value_cmd_register)
        (command_register-IsOwned P channel sockid json s owned)
        (if_cases Goal (same_text cmd value_cmd_send)
          (command_send-IsOwned P channel sockid json s owned)
          (if_cases Goal (same_text cmd value_cmd_message)
            (command_message-IsOwned P channel json s owned)
            (if_cases Goal (same_text cmd value_cmd_request)
              (command_request-IsOwned P channel sockid json s owned) owned)))
    where
      Goal : Outcome P.Device → Type 0
      Goal = Owned P channel

  with_command-IsOwned :
      (sockid : ℕ) (json : P.Value) (s : AppWsClient P.Device)
      → IsOwned channel s
      → Owned P channel (with_command P channel sockid json s)
  unfolding with_command
  with_command-IsOwned sockid json s owned =
      option_cases (Owned P channel) (P.get_string json key_cmd) owned
        λ cmd. run_command-IsOwned sockid cmd json s owned

  on_chunk-IsOwned :
      (sockid : ℕ) (message : Text) (s : AppWsClient P.Device)
      → IsOwned channel s
      → Owned P channel (on_chunk P channel sockid message s)
  unfolding on_chunk
  on_chunk-IsOwned sockid message s owned =
      option_cases (Owned P channel) (P.parse (s.chunked_frames ++ message))
        (if_cases (Owned P channel) (ltb max_chunked_frames s.num_chunked_frames) owned owned)
        λ json. if_cases (Owned P channel) (is_empty (cmd_of P channel json)) owned (
          with_command-IsOwned sockid json
            (record s { chunked_frames = []; num_chunked_frames = 0 }) owned)

  on_message-IsOwned :
      (sockid : ℕ) (message : Text) (s : AppWsClient P.Device)
      → IsOwned channel s
      → Owned P channel (on_message P channel sockid message s)
  unfolding on_message
  on_message-IsOwned sockid message s owned =
      option_cases (Owned P channel) (P.parse message) (on_chunk-IsOwned sockid message s owned)
        λ json.
          if_cases (Owned P channel) (is_empty (cmd_of P channel json))
            (on_chunk-IsOwned sockid message s owned) (with_command-IsOwned sockid json s owned)

  -- The calls that a web socket or another channel of the proxy may make.
  pub data AppStep (s : AppWsClient P.Device) : AppWsClient P.Device → Type 0 where
    connect_step : (sockid : ℕ) → AppStep s (on_connect sockid s)
    message_step :
        (sockid : ℕ) (message : Text) → AppStep s (on_message P channel sockid message s).2
    disconnect_step : (sockid : ℕ) → AppStep s (on_disconnect channel sockid s).1
    drop_step : (sockid : ℕ) → AppStep s (on_drop channel sockid s).1
    other_start_step :
        (other peer : ℕ) (config : SessionConfigEntry)
        → channel ≢ other
        → AppStep s
            (record s { signaling = (start_signaling_session other peer config s.signaling).2 })
    other_stop_step :
        (other : ℕ)
        → channel ≢ other
        → AppStep s (record s { signaling = (stop_signaling_session other s.signaling).1 })

  pub data AppReach (s : AppWsClient P.Device) : AppWsClient P.Device → Type 0 where
    app_here : AppReach s s
    app_next : {t u : AppWsClient P.Device} → AppReach s t → AppStep t u → AppReach s u

  start_other-helpers :
      (other peer : ℕ) (config : SessionConfigEntry) (s : Signaling)
      → channel ≢ other
      → (start_signaling_session other peer config s).2.helpers channel ≡ s.helpers channel
  unfolding start_signaling_session
  start_other-helpers other peer config s ne =
      started (start_streamer_signaling other peer config s.proxy)
    where
      started :
          (o : Bool × List Effect × StreamerProxy)
          → (session_started other peer s o).2.helpers channel ≡ s.helpers channel
      started (true, effects, p) = update_ne s.helpers other channel _ ne
      started (false, effects, p) = update_ne s.helpers other channel _ ne

  stop_other-helpers :
      (other : ℕ) (s : Signaling)
      → channel ≢ other
      → (stop_signaling_session other s).1.helpers channel ≡ s.helpers channel
  unfolding stop_signaling_session
  stop_other-helpers other s ne = update_ne s.helpers other channel _ ne

  helpers-IsOwned :
      (s : AppWsClient P.Device) (g : Signaling)
      → g.helpers channel ≡ s.signaling.helpers channel
      → IsOwned channel s
      → HasClient channel s.app_client g
  helpers-IsOwned s g same owned on =
      let (registered, peer) = owned (ap (λ h. h.streamsession_active) (sym same) ∙ on) in
      (registered, ap (λ h. h.peer_id) same ∙ peer)

  AppStep-IsOwned :
      {s t : AppWsClient P.Device} → AppStep s t → IsOwned channel s → IsOwned channel t
  unfolding on_connect on_disconnect on_drop
  AppStep-IsOwned (connect_step sockid) owned = owned
  AppStep-IsOwned {s = s} (message_step sockid message) owned =
      on_message-IsOwned sockid message s owned
  AppStep-IsOwned {s = s} (disconnect_step sockid) owned =
      drop_client-IsOwned channel sockid
        (record s { session_config = remove_config sockid s.session_config }) owned
  AppStep-IsOwned {s = s} (drop_step sockid) owned = drop_client-IsOwned channel sockid s owned
  AppStep-IsOwned {s = s} (other_start_step other peer config ne) owned =
      helpers-IsOwned s (start_signaling_session other peer config s.signaling).2
        (start_other-helpers other peer config s.signaling ne) owned
  AppStep-IsOwned {s = s} (other_stop_step other ne) owned =
      helpers-IsOwned s (stop_signaling_session other s.signaling).1
        (stop_other-helpers other s.signaling ne) owned

  AppReach-IsOwned :
      {s t : AppWsClient P.Device} → AppReach s t → IsOwned channel s → IsOwned channel t
  AppReach-IsOwned app_here owned = owned
  AppReach-IsOwned (app_next r step) owned = AppStep-IsOwned step (AppReach-IsOwned r owned)

  disconnect-IsOff :
      (s : AppWsClient P.Device) → IsOff channel (on_disconnect channel s.app_client.sockid s).1
  unfolding on_disconnect drop_client disconnect
  disconnect-IsOff s =
      let c = disconnect s.app_client.sockid s.app_client in
      let s' : AppWsClient P.Device = record s {
        app_client = c.1;
        session_config = remove_config s.app_client.sockid s.session_config;
      } in
      if_split (λ (r : List AppEffect × AppWsClient P.Device). IsOff channel r.1) c.0
        (λ e. reset_and_stop-IsOff channel s') λ e. absurd (ground (arith, e))

  -- Whatever the sockets send, in any order, and whatever the other channels of the proxy start and
  -- stop, from a client without a session: when this channel has a session, a client is registered,
  -- what the streamer sends to the peer of the session goes to the socket of that client, as the
  -- command send, and the session ends when that socket is closed.
  pub AppReach-served :
      (s t : AppWsClient P.Device) (message : Text)
      → is_signaling_session_active channel s.signaling ≡ false
      → AppReach s t
      → is_signaling_session_active channel t.signaling ≡ true
      → (is_registered t.app_client.sockid t.app_client ≡ true)
        × (client_send_message_to_peer P (get_active_peer_id channel t.signaling) message t ≡ (
          true,
          send_message_to t.app_client.sockid (
                P.write
                  (text_object P ((key_cmd, value_cmd_send) ∷ (key_send_message, message) ∷ [])))
              ∷ [],
        ))
        × (is_signaling_session_active channel
              (on_disconnect channel t.app_client.sockid t).1.signaling
            ≡ false)
  unfolding client_send_message_to_peer get_sock_id is_registered
  AppReach-served s t message off r on =
      let (registered, peer) = AppReach-IsOwned r (IsOff-IsOwned channel s off) on in
      (ground (arith, registered), ground (arith, on, peer), disconnect-IsOff t)
