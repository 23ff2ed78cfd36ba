-- ===== src/AppWsClient/Messages.antt =====
-- The handlers of AppWsClient: OnConnect, OnMessage, OnDisconnect, SendMessageToPeer, ReportEvent and
-- the delayed message that drops a connection. OnError only logs.
pub mod Chunks
pub mod Registered
use rpi_webrtc_streamer.Base.{
  ℕ, suc, Bool, true, false, none, some, List, [], ◌∷◌, ◌++◌, ltb, if◌then◌else◌, Text, is_empty,
  same_text,
}
use rpi_webrtc_streamer.Client.ClientInfo.{disconnect, get_sock_id}
use rpi_webrtc_streamer.SessionConfig.{remove_config}
use rpi_webrtc_streamer.AppWsClient.{
  Platform, AppEffect, send_message_to, close_connection, post_drop, AppWsClient, event_error,
  or_empty, text_object, send_event, reset_and_stop,
}
use rpi_webrtc_streamer.AppWsClient.Commands.{
  Outcome, command_register, command_send, command_message,
}
use rpi_webrtc_streamer.AppWsClient.Requests.{command_request}
use rpi_webrtc_streamer.AppWsClient.Keys.{
  key_cmd, key_send_message, value_cmd_register, value_cmd_send, value_cmd_request,
  value_cmd_message, err_unknown_command_type, err_unknown_protocol_message, stream_release_delay,
  max_chunked_frames,
}

module _ {Device : Type 0} where
  unfoldable pub on_connect : ℕ → AppWsClient Device → AppWsClient Device
  on_connect sockid s = record s { chunked_frames = []; num_chunked_frames = 0 }

module _ (P : Platform) (channel : ℕ) where
  -- OnMessage once it has a message with a command
  unfoldable pub run_command : ℕ → Text → P.Value → AppWsClient P.Device → Outcome P.Device
  run_command sockid cmd json s =
      if same_text cmd value_cmd_register
      then command_register P channel sockid json s
      else (if same_text cmd value_cmd_send
          then command_send P channel sockid json s
          else (if same_text cmd value_cmd_message
              then command_message P json s
              else (if same_text cmd value_cmd_request
                  then command_request P channel sockid json s
                  else (true, send_event P sockid event_error err_unknown_command_type ∷ [], s))))

  unfoldable pub with_command : ℕ → P.Value → AppWsClient P.Device → Outcome P.Device
  unfolding run_command
  with_command sockid json s = elim (P.get_string json key_cmd) [
    | none ↦ (true, send_event P sockid event_error err_unknown_protocol_message ∷ [], s)
    | some cmd ↦ run_command sockid cmd json s
  ]

  abbrev pub cmd_of : P.Value → Text
  cmd_of json = or_empty (P.get_string json key_cmd)

  -- A message that has no command of its own is put behind those that wait.
  unfoldable pub on_chunk : ℕ → Text → AppWsClient P.Device → Outcome P.Device
  unfolding with_command
  on_chunk sockid message s =
      let frames = s.chunked_frames ++ message in
      elim (P.parse frames) [
        | none ↦
            if ltb max_chunked_frames s.num_chunked_frames
            then (true, [], record s { chunked_frames = []; num_chunked_frames = 0 })
            else (
              true,
              [],
              record s { chunked_frames = frames; num_chunked_frames = suc s.num_chunked_frames },
            )
        | some json ↦
            if is_empty (cmd_of json)
            then (true, [], record s { chunked_frames = frames })
            else with_command sockid json (record s { chunked_frames = []; num_chunked_frames = 0 })
      ]

  unfoldable pub on_message : ℕ → Text → AppWsClient P.Device → Outcome P.Device
  unfolding with_command on_chunk
  on_message sockid message s = elim (P.parse message) [
    | none ↦ on_chunk sockid message s
    | some json ↦
        if is_empty (cmd_of json) then on_chunk sockid message s else with_command sockid json s
  ]

module _ {Device : Type 0} (channel : ℕ) where
  -- "if (app_client_.Disconnect(sockid) == true)" and what follows it
  unfoldable pub drop_client : ℕ → AppWsClient Device → List AppEffect × AppWsClient Device
  drop_client sockid s =
      let (dropped, c) = disconnect sockid s.app_client in
      let s' : AppWsClient Device = record s { app_client = c } in
      if dropped then reset_and_stop channel s' else ([], s')

  unfoldable pub on_disconnect : ℕ → AppWsClient Device → List AppEffect × AppWsClient Device
  unfolding drop_client
  on_disconnect sockid s =
      drop_client sockid (record s { session_config = remove_config sockid s.session_config })

  unfoldable pub on_drop : ℕ → AppWsClient Device → List AppEffect × AppWsClient Device
  unfolding drop_client
  on_drop sockid s =
      let (effects, s') = drop_client sockid s in (close_connection sockid 0 [] ∷ effects, s')

  unfoldable pub report_event : ℕ → Bool → Text → AppWsClient Device → List AppEffect
  report_event peer_id drop_connection message s = elim (get_sock_id peer_id s.app_client) [
    | none ↦ []
    | some sockid ↦ if drop_connection then post_drop sockid stream_release_delay ∷ [] else []
  ]

module _ (P : Platform) where
  unfoldable pub client_send_message_to_peer :
      ℕ → Text → AppWsClient P.Device → Bool × List AppEffect
  client_send_message_to_peer peer_id message s = elim (get_sock_id peer_id s.app_client) [
    | none ↦ (false, [])
    | some sockid ↦ (
      true,
      send_message_to sockid
            (P.write (text_object P ((key_cmd, value_cmd_send) ∷ (key_send_message, message) ∷ [])))
          ∷ [],
    )
  ]
