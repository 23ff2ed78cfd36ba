-- ===== src/AppWsClient.antt =====
-- AppWsClient of src/app_ws_client.cc: the web socket channel of the streamer, its state and what it
-- sends. `Keys` has its keywords, `Commands` and `Requests` what it does for a command, `Messages`
-- its handlers.
--
-- JsonCpp, the camera and the parts of the streamer that the client calls are the record `Platform`:
-- its `Device` is the state of the media configuration, of the camera and of the encoder. An int of
-- a message is only passed on or compared, and so is a number here.
pub mod Keys
pub mod Commands
pub mod Requests
pub mod Messages
mod Tests
use rpi_webrtc_streamer.Base.{
  ℕ, Bool, Option, none, some, List, [], ◌∷◌, ◌++◌, ◌⊎◌, map, if◌then◌else◌, Text, is_empty,
}
use rpi_webrtc_streamer.Client.ClientInfo.{AppClientInfo, reset_client}
use rpi_webrtc_streamer.Signaling.{
  Effect, Signaling, is_signaling_session_active, stop_signaling_session,
}
use rpi_webrtc_streamer.SessionConfig.{SessionConfig}
use rpi_webrtc_streamer.AppWsClient.Keys.{
  key_cmd, key_data, key_cmd_type, key_transaction, key_request_result, value_result_success,
  value_result_failed, key_request_error, value_cmd_event, value_type_error, value_type_notice,
  key_event_mesg, value_cmd_response,
}

-- wstreamer::ZoomOptions and StillOptions of src/wstreamer_types.h
pub data ZoomCommand : Type 0 where
  zoom_in : ZoomCommand
  zoom_out : ZoomCommand
  zoom_move : ZoomCommand
  zoom_reset : ZoomCommand

pub record ZoomOptions (Double : Type 0) : Type 0 where
  pub cmd : ZoomCommand
  pub center_x : Option Double
  pub center_y : Option Double

pub record StillOptions : Type 0 where
  pub width : Option ℕ
  pub height : Option ℕ
  pub camera_num : Option ℕ
  pub filename : Option Text
  pub quality : Option ℕ
  pub timeout : Option ℕ
  pub extension : Option Text
  pub verbose : Option Bool
  pub force_capture : Option Bool

-- A getter gives `none` where the C++ function returns false and leaves its out parameter.
pub record Platform : Type 1 where
  pub Value : Type 0
  pub Double : Type 0
  pub Device : Type 0
  pub parse : Text → Option Value
  pub get_value : Value → Text → Option Value
  pub get_string : Value → Text → Option Text
  pub get_int : Value → Text → Option ℕ
  pub get_double : Value → Text → Option Double
  pub get_bool : Value → Text → Option Bool
  pub string_value : Text → Value
  pub bool_value : Bool → Value
  pub json_object : List (Text × Value) → Value
  pub write : Value → Text
  pub to_styled_string : Value → Text
  pub double_to_int : Double → ℕ
  pub get_camera : Device → ℕ × ℕ
  pub get_still_enable : Device → Bool
  pub get_resolution4_3 : Device → Bool
  pub to_json : Device → Text
  pub save_config : Device → Bool × Device
  pub reset_config : Device → Device
  pub from_json : Text → Device → (Text ⊎ Text) × Device
  pub set_encoder_config_params : Device → Device
  pub reinit_encoder_internal : Device → Bool × Device
  pub start_capture : Device → Device
  pub zoom : ZoomOptions Double → Device → Device
  pub get_latest_or_capture : StillOptions → Device → (Text ⊎ Text) × Device
  pub get_json_rtc_config : Device → Option Text
  pub rtc_config_from_json : Text → Option Text

pub data AppEffect : Type 0 where
  signaling_effect : Effect → AppEffect
  send_message_to : ℕ → Text → AppEffect
  close_connection : ℕ → ℕ → Text → AppEffect
  post_drop : ℕ → ℕ → AppEffect

pub record AppWsClient (Device : Type 0) : Type 0 where
  pub app_client : AppClientInfo
  pub session_config : SessionConfig
  pub chunked_frames : Text
  pub num_chunked_frames : ℕ
  pub deviceid : Text
  pub signaling : Signaling
  pub device : Device

pub data EventType : Type 0 where
  event_notice : EventType
  event_error : EventType

-- The string that a getter writes to, which was empty.
abbrev pub or_empty : Option Text → Text
or_empty none = []
or_empty (some text) = text

module _ (P : Platform) where
  -- A Json::Value after these assignments, in this order.
  abbrev pub text_object : List (Text × Text) → P.Value
  text_object fields = P.json_object (map (λ f. (f.0, P.string_value f.1)) fields)

  unfoldable pub send_response : ℕ → Bool → Text → Text → Text → Text → AppEffect
  send_response sockid success type transaction data_ error_mesg = send_message_to sockid (
      P.write (
        text_object (
          (key_cmd, value_cmd_response)
          ∷ (key_cmd_type, type)
          ∷ (key_data, data_)
          ∷ ((if is_empty transaction then [] else (key_transaction, transaction) ∷ [])
              ++ ((key_request_error, error_mesg)
                  ∷ (if success
                      then ((key_request_result, value_result_success)
                          ∷ (key_request_error, [])
                          ∷ [])
                      else ((key_request_result, value_result_failed)
                          ∷ (key_request_error, error_mesg)
                          ∷ [])))))))

  unfoldable pub send_event : ℕ → EventType → Text → AppEffect
  send_event sockid event_type event_mesg = send_message_to sockid (
      P.write (
        text_object (
          (key_cmd, value_cmd_event)
          ∷ (key_event_mesg, event_mesg)
          ∷ (
            key_cmd_type,
            elim event_type [ event_error ↦ value_type_error | event_notice ↦ value_type_notice ],
          )
          ∷ [])))

module _ {Device : Type 0} (channel : ℕ) where
  -- "if (IsSignalingSessionActive() == true) StopSignalingSession()", after app_client_.Reset()
  unfoldable pub reset_and_stop : AppWsClient Device → List AppEffect × AppWsClient Device
  unfolding reset_client
  reset_and_stop s =
      let c = reset_client s.app_client in
      if is_signaling_session_active channel s.signaling
      then (let (effects, signaling) = stop_signaling_session channel s.signaling in
          (map signaling_effect effects, record s { app_client = c; signaling = signaling }))
      else ([], record s { app_client = c })
