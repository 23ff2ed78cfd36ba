-- ===== src/AppWsClient/Messages/Registered/Commands.antt =====
-- The commands keep the session with the registered client.
use rpi_webrtc_streamer.Base.{
  ℕ, ◌≡◌, sym, ap, subst, ◌∙◌, true, if_split, if_cases, option_cases, not, ◌&&◌, is_empty,
  same_text, Text,
}
use rpi_webrtc_streamer.Client.ClientInfo.{register, is_registered, in_registered}
use rpi_webrtc_streamer.Signaling.{is_signaling_session_active}
use rpi_webrtc_streamer.AppWsClient.{Platform, AppWsClient, or_empty, reset_and_stop}
use rpi_webrtc_streamer.AppWsClient.Commands.{
  Outcome, start_registered, register_client, command_register, send_bye, send_text, command_send,
  command_message,
}
use rpi_webrtc_streamer.AppWsClient.Requests.{command_request}
use rpi_webrtc_streamer.AppWsClient.Requests.Answered.{command_request-Answers}
use rpi_webrtc_streamer.AppWsClient.Keys.{
  key_register_room_id, key_register_client_id, key_send_type, value_cmd_send_type_bye,
  key_send_message, key_data, key_cmd_type, value_type_zoom,
}
use rpi_webrtc_streamer.AppWsClient.Messages.Registered.{
  HasClient, IsOwned, IsOff-IsOwned, reset_and_stop-IsOff, register-accepted, register-rejected,
  register-kept, start-HasClient,
}

module _ (P : Platform) (channel : ℕ) where
  abbrev pub Owned : Outcome P.Device → Type 0
  Owned o = IsOwned channel o.2

  start_registered-IsOwned :
      (sockid client : ℕ) (s : AppWsClient P.Device)
      → in_registered s.app_client.state ≡ true
      → s.app_client.client_id ≡ client
      → IsOwned channel s
      → Owned (start_registered P channel sockid client s)
  unfolding start_registered
  start_registered-IsOwned sockid client s registered same owned =
      if_split Owned (is_signaling_session_active channel s.signaling) (λ e. owned)
        λ e. start-HasClient channel client _ s.app_client s.signaling registered same

  register_client-IsOwned :
      (sockid room client : ℕ) (s : AppWsClient P.Device)
      → IsOwned channel s
      → Owned (register_client P channel sockid room client s)
  unfolding register_client
  register_client-IsOwned sockid room client s owned =
      if_split Owned (register sockid room client s.app_client).0
        (λ e.
          let (registered, same) = register-accepted sockid room client s.app_client e in
          start_registered-IsOwned sockid client
            (record s { app_client = (register sockid room client s.app_client).1 }) registered same
            λ on.
              let kept = register-kept sockid room client s.app_client e (owned on).0 in
              (registered, (owned on).1 ∙ ap (λ c. c.client_id) (sym kept)))
        λ e.
          subst (λ c. HasClient channel c s.signaling)
            (sym (register-rejected sockid room client s.app_client e)) owned

  pub command_register-IsOwned :
      (sockid : ℕ) (json : P.Value) (s : AppWsClient P.Device)
      → IsOwned channel s
      → Owned (command_register P channel sockid json s)
  unfolding command_register
  command_register-IsOwned sockid json s owned =
      option_cases Owned (P.get_int json key_register_room_id) owned λ room.
        option_cases Owned (P.get_int json key_register_client_id) owned
          λ client. register_client-IsOwned sockid room client s owned

  send_bye-IsOwned :
      (sockid : ℕ) (s : AppWsClient P.Device)
      → IsOwned channel s
      → Owned (send_bye P channel sockid s)
  unfolding send_bye
  send_bye-IsOwned sockid s owned =
      if_split Owned (is_registered sockid s.app_client)
        (λ e. IsOff-IsOwned channel (reset_and_stop channel s).1 (reset_and_stop-IsOff channel s))
        λ e. owned

  send_text-IsOwned :
      (sockid : ℕ) (msg : Text) (s : AppWsClient P.Device)
      → IsOwned channel s
      → Owned (send_text P channel sockid msg s)
  unfolding send_text
  send_text-IsOwned sockid msg s owned = option_cases Owned (P.parse msg) owned λ json_msg.
      if_cases Owned
        (not (is_empty (or_empty (P.get_string json_msg key_send_type)))
          && same_text (or_empty (P.get_string json_msg key_send_type)) value_cmd_send_type_bye)
        (send_bye-IsOwned sockid s owned) owned

  pub command_send-IsOwned :
      (sockid : ℕ) (json : P.Value) (s : AppWsClient P.Device)
      → IsOwned channel s
      → Owned (command_send P channel sockid json s)
  unfolding command_send
  command_send-IsOwned sockid json s owned =
      let msg = or_empty (P.get_string json key_send_message) in
      if_cases Owned (not (is_empty msg)) (send_text-IsOwned sockid msg s owned) owned

  pub command_message-IsOwned :
      (json : P.Value) (s : AppWsClient P.Device)
      → IsOwned channel s
      → Owned (command_message P json s)
  unfolding command_message
  command_message-IsOwned json s owned =
      let data_ = or_empty (P.get_string json key_data) in
      if_cases Owned
        (same_text (or_empty (P.get_string json key_cmd_type)) value_type_zoom
          && not (is_empty data_))
        (option_cases Owned (P.parse data_) owned λ json_data. owned) owned

  pub command_request-IsOwned :
      (sockid : ℕ) (json : P.Value) (s : AppWsClient P.Device)
      → IsOwned channel s
      → Owned (command_request P channel sockid json s)
  command_request-IsOwned sockid json s owned =
      let same = (command_request-Answers P channel sockid json s).same_client in
      subst (λ c. HasClient channel c (command_request P channel sockid json s).2.signaling)
        (sym same.same_app_client)
        (subst (λ g. HasClient channel s.app_client g) (sym same.same_signaling) owned)
