-- ===== src/AppWsClient/Commands.antt =====
-- The commands register, send and message of AppWsClient::OnMessage.
use rpi_webrtc_streamer.Base.{
  ℕ, Bool, true, false, not, ◌&&◌, none, some, List, [], ◌∷◌, map, if◌then◌else◌, Text, is_empty,
  same_text,
}
use rpi_webrtc_streamer.Client.ClientInfo.{register, is_registered}
use rpi_webrtc_streamer.Signaling.{
  is_signaling_session_active, start_signaling_session, message_from_peer,
}
use rpi_webrtc_streamer.Signaling.Direct.{empty_config}
use rpi_webrtc_streamer.SessionConfig.{get_config}
use rpi_webrtc_streamer.AppWsClient.{
  Platform, zoom_in, zoom_out, zoom_move, zoom_reset, AppEffect, signaling_effect, AppWsClient,
  event_notice, event_error, or_empty, send_event, reset_and_stop,
}
use rpi_webrtc_streamer.AppWsClient.Keys.{
  key_register_room_id, key_register_client_id, key_send_message, key_send_type,
  value_cmd_send_type_bye, key_cmd_type, key_data, value_type_zoom, key_data_command, value_data_x,
  value_data_y, value_command_zoom_in, value_command_zoom_out, value_command_zoom_reset,
  value_command_zoom_move, err_client_or_room_id_not_found, err_streamer_occupied,
  err_internal_error, err_invalid_json_message, err_message_empy, err_unknown_command_type,
}

-- What a command gives: false to close the connection, what was sent, and the new state.
abbrev pub Outcome : Type 0 → Type 0
Outcome Device = Bool × List AppEffect × AppWsClient Device

module _ (P : Platform) (channel : ℕ) where
  -- After app_client_.Register has succeeded.
  unfoldable pub start_registered : ℕ → ℕ → AppWsClient P.Device → Outcome P.Device
  start_registered sockid client_id s =
      if is_signaling_session_active channel s.signaling
      then (false, send_event P sockid event_error err_internal_error ∷ [], s)
      else (let (_, config) = get_config sockid s.session_config empty_config in
          let (_, effects, signaling) =
            start_signaling_session channel client_id config s.signaling in
          (true, map signaling_effect effects, record s { signaling = signaling }))

  unfoldable pub register_client : ℕ → ℕ → ℕ → AppWsClient P.Device → Outcome P.Device
  unfolding start_registered
  register_client sockid room_id client_id s =
      let (accepted, c) = register sockid room_id client_id s.app_client in
      let s' : AppWsClient P.Device = record s { app_client = c } in
      if accepted
      then start_registered sockid client_id s'
      else (true, send_event P sockid event_notice err_streamer_occupied ∷ [], s')

  unfoldable pub command_register : ℕ → P.Value → AppWsClient P.Device → Outcome P.Device
  unfolding register_client
  command_register sockid json s = elim (P.get_int json key_register_room_id) [
    | none ↦ (true, send_event P sockid event_error err_client_or_room_id_not_found ∷ [], s)
    | some room_id ↦ elim (P.get_int json key_register_client_id) [
      | none ↦ (true, send_event P sockid event_error err_client_or_room_id_not_found ∷ [], s)
      | some client_id ↦ register_client sockid room_id client_id s
    ]
  ]

  -- A message of type bye
  unfoldable pub send_bye : ℕ → AppWsClient P.Device → Outcome P.Device
  send_bye sockid s =
      if is_registered sockid s.app_client
      then (let (effects, s') = reset_and_stop channel s in (true, effects, s'))
      else (true, [], s)

  unfoldable pub send_text : ℕ → Text → AppWsClient P.Device → Outcome P.Device
  unfolding send_bye
  send_text sockid msg s = elim (P.parse msg) [
    | none ↦ (false, send_event P sockid event_error err_invalid_json_message ∷ [], s)
    | some json_msg ↦
        let json_msg_type = or_empty (P.get_string json_msg key_send_type) in
        if not (is_empty json_msg_type) && same_text json_msg_type value_cmd_send_type_bye
        then send_bye sockid s
        else (true, map signaling_effect (message_from_peer channel msg s.signaling), s)
  ]

  -- Without a message, the code goes on behind the commands and sends a second event.
  unfoldable pub command_send : ℕ → P.Value → AppWsClient P.Device → Outcome P.Device
  unfolding send_text
  command_send sockid json s =
      let msg = or_empty (P.get_string json key_send_message) in
      if not (is_empty msg) then send_text sockid msg s else (
        true,
        send_event P sockid event_error err_message_empy
            ∷ send_event P sockid event_error err_unknown_command_type
            ∷ [],
        s,
      )

module _ (P : Platform) where
  unfoldable pub zoom_command : Text → P.Double → P.Double → P.Device → P.Device
  zoom_command command cx cy d =
      if same_text command value_command_zoom_in
      then P.zoom (record { cmd = zoom_in; center_x = some cx; center_y = some cy }) d
      else (if same_text command value_command_zoom_out
          then P.zoom (record { cmd = zoom_out; center_x = none; center_y = none }) d
          else (if same_text command value_command_zoom_reset
              then P.zoom (record { cmd = zoom_reset; center_x = none; center_y = none }) d
              else (if same_text command value_command_zoom_move
                  then P.zoom (record { cmd = zoom_move; center_x = some cx; center_y = some cy }) d
                  else d)))

  unfoldable pub zoom_data : P.Value → P.Device → P.Device
  unfolding zoom_command
  zoom_data json d =
      let command = or_empty (P.get_string json key_data_command) in
      if is_empty command then d else elim (P.get_double json value_data_x) [
        | none ↦ d
        | some cx ↦ elim (P.get_double json value_data_y) [
          | none ↦ d
          | some cy ↦ zoom_command command cx cy d
        ]
      ]

  unfoldable pub command_message : P.Value → AppWsClient P.Device → Outcome P.Device
  unfolding zoom_data
  command_message json s =
      let cmd_type = or_empty (P.get_string json key_cmd_type) in
      let data_ = or_empty (P.get_string json key_data) in
      if same_text cmd_type value_type_zoom && not (is_empty data_)
      then elim (P.parse data_) [
        | none ↦ (true, [], s)
        | some json_data ↦ (true, [], record s { device = zoom_data json_data s.device })
      ]
      else (true, [], s)
