-- ===== src/SessionConfig.antt =====
-- SessionConfig of src/session_config.cc: the RTC configuration that a web socket has set for itself.
-- The vector is the list of its entries; the mutex, which every operation holds, is left out.
pub mod Latest
mod Tests
use rpi_webrtc_streamer.Base.{ℕ, Bool, true, false, List, [], ◌∷◌, ◌==◌, if◌then◌else◌, Text}
use rpi_webrtc_streamer.Signaling.{SessionConfigEntry}

abbrev pub SessionConfig : Type 0
SessionConfig = List SessionConfigEntry

unfoldable pub set_rtc_config : ℕ → Text → SessionConfig → SessionConfig
set_rtc_config id str_rtc_config [] = record { id = id; rtc_config = str_rtc_config } ∷ []
set_rtc_config id str_rtc_config (c ∷ cs) =
    if c.id == id
    then record c { rtc_config = str_rtc_config } ∷ cs
    else c ∷ set_rtc_config id str_rtc_config cs

-- With what is written to the out parameter, which is left as it was when there is no entry.
unfoldable pub get_config : ℕ → SessionConfig → SessionConfigEntry → Bool × SessionConfigEntry
get_config id [] pc_config = (false, pc_config)
get_config id (c ∷ cs) pc_config = if c.id == id then (true, c) else get_config id cs pc_config

unfoldable pub remove_config : ℕ → SessionConfig → SessionConfig
remove_config id [] = []
remove_config id (c ∷ cs) = if c.id == id then cs else c ∷ remove_config id cs
