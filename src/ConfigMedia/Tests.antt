-- ===== src/ConfigMedia/Tests.antt =====
-- A run of the media settings, with numbers of one digit and a message that is a number.
use rpi_webrtc_streamer.Base.{
  ℕ, ◌<◌, ◌≤◌, ◌-◌, ◌^◌, ◌≡◌, Bool, true, false, Option, none, some, [], ◌∷◌, arith, ltb,
  if◌then◌else◌, Text, same_text,
}
use rpi_webrtc_streamer.ConfigMedia.{Outside, ConfigMedia}
use rpi_webrtc_streamer.ConfigMedia.Vars.{video_brightness}
use rpi_webrtc_streamer.ConfigMedia.Rows.{int_name}
use rpi_webrtc_streamer.ConfigMedia.Integers.Bounds.{IsBounded}
use rpi_webrtc_streamer.ConfigMedia.Load.{reset, load}
use rpi_webrtc_streamer.ConfigMedia.Json.{from_json}
use rpi_webrtc_streamer.ConfigMedia.Json.Ranges.{
  settings_here, settings_next, load_step, from_json_step, SettingsReach-IsBounded,
}

abbrev one_digit : Text → Option ℕ
one_digit [] = none
one_digit (c ∷ cs) = some (if ltb c 58 then c - 48 else 0)

abbrev plain : Outside
plain = record {
  Double = ℕ;
  double_zero = 0;
  double_one = 1;
  video_roi_min = 0;
  video_roi_max = 1;
  is_less = ltb;
  is_greater = λ a b. ltb b a;
  add_double = λ a b. b;
  from_string_int = one_digit;
  from_string_double = one_digit;
  split = λ t c. t ∷ [];
  uninit = 0;
  is_folder = λ t. true;
  check_exposure_mode = λ t. true;
  check_flicker_mode = λ t. true;
  check_awb_mode = λ t. true;
  check_drc_mode = λ t. true;
  Value = Bool;
  parse = λ t. some true;
  parse_errors = λ t. [];
  get_value = λ v name. some true;
  to_text = λ v. none;
  to_int = λ v. some 70;
  to_bool = λ v. some v;
  text_value = λ t. true;
  int_value = λ n. true;
  bool_value = λ b. b;
  json_object = λ fields. true;
  write = λ v. [];
}

abbrev memory : ConfigMedia ℕ
memory = record {
  ints = λ v. 12345;
  bools = λ v. false;
  texts = λ v. [];
  ints_loaded = λ v. true;
  bools_loaded = λ v. true;
  texts_loaded = λ v. true;
  fixed_resolution = (0, 0);
  resolution_list_4_3 = [];
  resolution_list_16_9 = [];
  roi = record { x = 0; y = 0; width = 0; height = 0 };
}

-- A file with a brightness of 101, and no text.
abbrev no_text : Text → Option Text
no_text name = none

abbrev too_bright : Text → Option ℕ
too_bright name = if same_text name (int_name video_brightness) then some 101 else none

too_bright_small : (name : Text) (n : ℕ) → too_bright name ≡ some n → n < 2 ^ 32
too_bright_small name n e = ground (arith, e)

abbrev loaded : ConfigMedia ℕ
loaded = (load plain no_text too_bright true (reset plain memory)).1

abbrev messaged : ConfigMedia ℕ
messaged = (from_json plain [] loaded).1

seventy : (object : Bool) (n : ℕ) → some 70 ≡ some n → n < 2 ^ 32
seventy object n e = ground (arith, e)

SettingsReach-IsBounded_example : messaged.ints video_brightness ≤ 100
unfolding IsBounded
SettingsReach-IsBounded_example =
    SettingsReach-IsBounded plain seventy memory messaged video_brightness (
      settings_next
        (settings_next settings_here (load_step no_text too_bright true too_bright_small))
        (from_json_step []))
