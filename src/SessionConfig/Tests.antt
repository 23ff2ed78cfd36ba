-- ===== src/SessionConfig/Tests.antt =====
-- A run of the session configuration.
use rpi_webrtc_streamer.Base.{◌≡◌, some, List, [], ◌∷◌}
use rpi_webrtc_streamer.Signaling.{SessionConfigEntry}
use rpi_webrtc_streamer.SessionConfig.{get_config}
use rpi_webrtc_streamer.SessionConfig.Latest.{
  SessionCall, set_call, remove_call, session_steps, answer, session_steps-latest,
}

abbrev session_calls : List SessionCall
session_calls =
    set_call 3 (b'a' ∷ []) ∷ set_call 4 (b'b' ∷ []) ∷ set_call 3 (b'c' ∷ []) ∷ remove_call 4 ∷ []

abbrev default_entry : SessionConfigEntry
default_entry = record { id = 0; rtc_config = [] }

session_steps-latest_example :
    get_config 3 (session_steps session_calls []) default_entry
    ≡ answer 3 default_entry (some (b'c' ∷ []))
session_steps-latest_example = session_steps-latest session_calls 3 default_entry
