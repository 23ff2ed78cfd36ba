-- ===== src/AppWsClient/Tests.antt =====
-- Runs of the web socket client, with a small parser: a text that ends in a brace is a value, and its
-- first byte is its command.
use rpi_webrtc_streamer.Base.{
  ℕ, ◌≡◌, refl, Bool, true, false, Option, none, some, List, [], ◌∷◌, ◌++◌, arith, inr,
  if◌then◌else◌, ◌==◌, Text, codes, same_text,
}
use rpi_webrtc_streamer.Client.ClientInfo.{new_client_info, is_registered, register}
use rpi_webrtc_streamer.Signaling.{
  Signaling, is_signaling_session_active, get_active_peer_id, start_signaling_session,
}
use rpi_webrtc_streamer.Signaling.Direct.{empty_config}
use rpi_webrtc_streamer.AppWsClient.{Platform, send_message_to, AppWsClient, text_object}
use rpi_webrtc_streamer.AppWsClient.Commands.{command_register}
use rpi_webrtc_streamer.AppWsClient.Requests.{command_request}
use rpi_webrtc_streamer.AppWsClient.Requests.Answered.{Answers, command_request-Answers}
use rpi_webrtc_streamer.AppWsClient.Messages.{
  on_message, on_disconnect, client_send_message_to_peer,
}
use rpi_webrtc_streamer.AppWsClient.Messages.Chunks.{on_messages, on_messages-reassembled}
use rpi_webrtc_streamer.AppWsClient.Messages.Registered.Reached.{
  AppReach, app_here, app_next, message_step, other_start_step, AppReach-served,
}
use rpi_webrtc_streamer.AppWsClient.Keys.{
  key_cmd, key_cmd_type, value_cmd_register, value_cmd_send, value_cmd_request,
  value_typep_device_info, key_send_message,
}

abbrev ends_in_brace : Text → Bool
ends_in_brace [] = false
ends_in_brace (c ∷ []) = c == b'}'
ends_in_brace (c ∷ d ∷ ds) = ends_in_brace (d ∷ ds)

abbrev first_is : ℕ → Text → Bool
first_is c [] = false
first_is c (d ∷ ds) = c == d

abbrev small_get_string : Text → Text → Option Text
small_get_string v key =
    if same_text key key_cmd
    then (if first_is b'r' v
        then some value_cmd_register
        else (if first_is b'q' v then some value_cmd_request else none))
    else (if same_text key key_cmd_type then some value_typep_device_info else none)

abbrev small_object : List (Text × Text) → Text
small_object [] = []
small_object (f ∷ fs) = f.0 ++ f.1 ++ small_object fs

abbrev small : Platform
small = record {
  Value = Text;
  Double = ℕ;
  Device = Bool;
  parse = λ t. if ends_in_brace t then some t else none;
  get_value = λ v key. none;
  get_string = small_get_string;
  get_int = λ v key. some 7;
  get_double = λ v key. none;
  get_bool = λ v key. none;
  string_value = λ t. t;
  bool_value = λ b. [];
  json_object = small_object;
  write = λ v. v;
  to_styled_string = λ v. v;
  double_to_int = λ x. x;
  get_camera = λ d. (1, 1);
  get_still_enable = λ d. d;
  get_resolution4_3 = λ d. d;
  to_json = λ d. [];
  save_config = λ d. (true, d);
  reset_config = λ d. true;
  from_json = λ t d. (inr t, d);
  set_encoder_config_params = λ d. d;
  reinit_encoder_internal = λ d. (true, d);
  start_capture = λ d. d;
  zoom = λ z d. d;
  get_latest_or_capture = λ o d. (inr [], d);
  get_json_rtc_config = λ d. none;
  rtc_config_from_json = λ t. none;
}

abbrev no_sessions : Signaling
no_sessions = record {
  proxy = record {
    active_signaling_outbound = none;
    active_peer_id = 0;
    has_motion_holder = false;
  };
  helpers = λ k. record { streamsession_active = false; peer_id = 0 };
}

abbrev fresh : AppWsClient Bool
fresh = record {
  app_client = new_client_info 0 0 0;
  session_config = [];
  chunked_frames = [];
  num_chunked_frames = 0;
  deviceid = codes "id";
  signaling = no_sessions;
  device = true;
}

-- Socket 3 asks for the information on the device.
command_request-Answers_example :
    Answers small 1 3 value_typep_device_info [] fresh
      (command_request small 1 3 (codes "q}") fresh)
command_request-Answers_example = command_request-Answers small 1 3 (codes "q}") fresh

-- The same in three pieces.
on_messages-reassembled_example :
    ((on_messages small 1 3 (codes "q" ∷ codes "a" ∷ []) fresh).0 ≡ [])
    × (on_message small 1 3 (codes "}") (on_messages small 1 3 (codes "q" ∷ codes "a" ∷ []) fresh).1
        ≡ on_message small 1 3 (codes "qa}") fresh)
on_messages-reassembled_example =
    on_messages-reassembled small 1 3 (codes "q" ∷ codes "a" ∷ []) (codes "}") (codes "qa}") fresh
      (refl, refl, (refl, refl, tt)) (omega arith) refl refl refl

-- Socket 3 registers, and the channel 2 is refused.
abbrev registered_client : AppWsClient Bool
registered_client = (on_message small 1 3 (codes "r}") fresh).2

abbrev refused_other : AppWsClient Bool
refused_other = record registered_client {
  signaling = (start_signaling_session 2 100 empty_config registered_client.signaling).2;
}

registers : AppReach small 1 fresh refused_other
registers =
    app_next (app_next app_here (message_step 3 (codes "r}")))
      (other_start_step 2 100 empty_config (λ e. absurd (omega (arith, e))))

AppReach-served_example :
    (is_registered refused_other.app_client.sockid refused_other.app_client ≡ true)
    × (client_send_message_to_peer small
          (get_active_peer_id 1 refused_other.signaling)
          (codes "hi")
          refused_other
        ≡ (
          true,
          send_message_to refused_other.app_client.sockid (
                text_object small ((key_cmd, value_cmd_send) ∷ (key_send_message, codes "hi") ∷ []))
              ∷ [],
        ))
    × (is_signaling_session_active 1
          (on_disconnect 1 refused_other.app_client.sockid refused_other).1.signaling
        ≡ false)
unfolding on_message start_signaling_session command_register register
AppReach-served_example =
    AppReach-served small 1 fresh refused_other (codes "hi") refl registers refl
