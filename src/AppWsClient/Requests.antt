-- ===== src/AppWsClient/Requests.antt =====
-- The command request of AppWsClient::OnMessage: the types info, rtcconfig, config and still. Each
-- gives the response and the new state; `respond` sends it to the socket that asked.
pub mod Answered
use rpi_webrtc_streamer.Base.{
  ℕ, Bool, true, false, ◌&&◌, Option, none, some, [], ◌∷◌, ◌++◌, ltb, if◌then◌else◌, Text, codes,
  same_text, inl, inr,
}
use rpi_webrtc_streamer.Signaling.{is_signaling_session_active}
use rpi_webrtc_streamer.SessionConfig.{set_rtc_config}
use rpi_webrtc_streamer.AppWsClient.{
  Platform, StillOptions, AppEffect, AppWsClient, event_error, or_empty, text_object, send_response,
  send_event,
}
use rpi_webrtc_streamer.AppWsClient.Commands.{Outcome}
use rpi_webrtc_streamer.AppWsClient.Keys.{
  key_cmd_type, key_transaction, key_data, value_typep_device_info, data_key_device_id,
  data_key_mc_version, data_key_still_capture, data_key_camera_enabled,
  data_key_video43_aspect_ratio, value_type_rtc_config, value_type_config, value_data_save,
  value_data_read, value_data_reset, value_data_apply, value_type_still, value_still_data_width,
  value_still_data_height, value_still_data_camera_num, value_still_data_filename,
  value_still_data_quality, value_still_data_extension, value_still_data_verbose,
  value_still_data_force_capture, value_still_data_url, media_config_version, err_data_key_missing,
  err_streamer_occupied, err_unknown_request_type, err_rtc_config,
}

-- The arguments of SendResponse that a request computes: its success, its data and its error.
pub record Response : Type 0 where
  pub success : Bool
  pub data_ : Text
  pub error_mesg : Text

abbrev pub succeeded : Text → Response
succeeded data_ = record { success = true; data_ = data_; error_mesg = [] }

abbrev pub failed : Text → Text → Response
failed data_ error_mesg = record { success = false; data_ = data_; error_mesg = error_mesg }

abbrev still_not_enabled : Text
still_not_enabled = codes "still capturing is not enabled"

abbrev still_url : Text
still_url = codes "/still/"

module _ (P : Platform) where
  unfoldable pub device_info : AppWsClient P.Device → Response
  device_info s =
      let (supported, detected) = P.get_camera s.device in
      succeeded (
        P.to_styled_string (
          P.json_object (
            (data_key_device_id, P.string_value s.deviceid)
            ∷ (data_key_mc_version, P.string_value media_config_version)
            ∷ (data_key_still_capture, P.bool_value (P.get_still_enable s.device))
            ∷ (data_key_video43_aspect_ratio, P.bool_value (P.get_resolution4_3 s.device))
            ∷ (data_key_camera_enabled, P.bool_value (ltb 0 supported && ltb 0 detected))
            ∷ [])))

  unfoldable pub request_rtc_config :
      ℕ → P.Value → AppWsClient P.Device → Response × AppWsClient P.Device
  request_rtc_config sockid json s = elim (P.get_value json key_data) [
    | some response_data ↦
        let json_rtcconfig = P.to_styled_string response_data in
        elim (P.rtc_config_from_json json_rtcconfig) [
          | none ↦ (
            succeeded [],
            record s { session_config = set_rtc_config sockid json_rtcconfig s.session_config },
          )
          | some error_message ↦ (failed [] error_message, s)
        ]
    | none ↦ elim (P.get_json_rtc_config s.device) [
      | some json_rtcconfig ↦ (succeeded json_rtcconfig, s)
      | none ↦ (failed [] err_rtc_config, s)
    ]
  ]

  unfoldable pub config_save : AppWsClient P.Device → Response × AppWsClient P.Device
  config_save s =
      let (saved, device) = P.save_config s.device in
      if saved
      then (succeeded (P.to_json device), record s { device = device })
      else (failed (codes "{}") [], record s { device = device })

  unfoldable pub config_reset : AppWsClient P.Device → Response × AppWsClient P.Device
  config_reset s =
      let device = P.reset_config s.device in
      (succeeded (P.to_json device), record s { device = device })

  unfoldable pub config_apply : ℕ → AppWsClient P.Device → Response × AppWsClient P.Device
  config_apply channel s =
      if is_signaling_session_active channel s.signaling
      then (let (done, device) = P.reinit_encoder_internal (P.set_encoder_config_params s.device) in
          if done
          then (succeeded [], record s { device = P.start_capture device })
          else (failed [] [], record s { device = device }))
      else (succeeded [], s)

  unfoldable pub config_update : Text → AppWsClient P.Device → Response × AppWsClient P.Device
  config_update data_ s =
      let (result, device) = P.from_json data_ s.device in
      elim result [
        | inl json_error ↦ (failed [] json_error, record s { device = device })
        | inr updated_config ↦ (succeeded updated_config, record s { device = device })
      ]

  unfoldable pub request_config :
      ℕ → P.Value → AppWsClient P.Device → Response × AppWsClient P.Device
  unfolding config_save config_reset config_apply config_update
  request_config channel json s = elim (P.get_string json key_data) [
    | none ↦ (failed [] err_data_key_missing, s)
    | some data_ ↦
        if same_text data_ value_data_read
        then (succeeded (P.to_json s.device), s)
        else (if same_text data_ value_data_save
            then config_save s
            else (if same_text data_ value_data_reset
                then config_reset s
                else (if same_text data_ value_data_apply
                    then config_apply channel s
                    else config_update data_ s)))
  ]

  abbrev pub to_int_option : Option P.Double → Option ℕ
  to_int_option none = none
  to_int_option (some x) = some (P.double_to_int x)

  unfoldable pub still_options : P.Value → StillOptions
  still_options json = record {
    width = P.get_int json value_still_data_width;
    height = P.get_int json value_still_data_height;
    camera_num = P.get_int json value_still_data_camera_num;
    filename = P.get_string json value_still_data_filename;
    quality = to_int_option (P.get_double json value_still_data_quality);
    timeout = none;
    extension = P.get_string json value_still_data_extension;
    verbose = P.get_bool json value_still_data_verbose;
    force_capture = P.get_bool json value_still_data_force_capture;
  }

  unfoldable pub still_capture : P.Value → AppWsClient P.Device → Response × AppWsClient P.Device
  unfolding still_options
  still_capture json_data s =
      let (status, device) = P.get_latest_or_capture (still_options json_data) s.device in
      elim status [
        | inl error ↦ (failed [] error, record s { device = device })
        | inr captured_filename ↦ (
          succeeded (
              P.write (
                text_object P (
                  (value_still_data_filename, captured_filename)
                  ∷ (value_still_data_url, still_url ++ captured_filename)
                  ∷ []))),
          record s { device = device },
        )
      ]

  unfoldable pub request_still :
      ℕ → P.Value → AppWsClient P.Device → Response × AppWsClient P.Device
  unfolding still_capture
  request_still channel json s =
      if is_signaling_session_active channel s.signaling
      then (failed [] err_streamer_occupied, s)
      else elim (P.get_value json key_data) [
        | none ↦ (failed [] err_data_key_missing, s)
        | some json_data ↦
            if P.get_still_enable s.device
            then still_capture json_data s
            else (failed [] still_not_enabled, s)
      ]

  unfoldable pub respond : ℕ → Text → Text → Response × AppWsClient P.Device → Outcome P.Device
  respond sockid cmd_type transaction (r, s) =
      (true, send_response P sockid r.success cmd_type transaction r.data_ r.error_mesg ∷ [], s)

  unfoldable pub command_request : ℕ → ℕ → P.Value → AppWsClient P.Device → Outcome P.Device
  unfolding device_info request_rtc_config request_config request_still respond
  command_request channel sockid json s =
      let cmd_type = or_empty (P.get_string json key_cmd_type) in
      let transaction = or_empty (P.get_string json key_transaction) in
      if same_text cmd_type value_typep_device_info
      then respond sockid value_typep_device_info transaction (device_info s, s)
      else (if same_text cmd_type value_type_rtc_config
          then respond sockid value_type_rtc_config transaction (request_rtc_config sockid json s)
          else (if same_text cmd_type value_type_config
              then respond sockid value_type_config transaction (request_config channel json s)
              else (if same_text cmd_type value_type_still
                  then respond sockid value_type_still transaction (request_still channel json s)
                  else (true, send_event P sockid event_error err_unknown_request_type ∷ [], s))))
