-- ===== src/ConfigMedia.antt =====
-- ConfigMedia of src/config_media.cc: the media settings and their validation. `Vars` and `Rows` are
-- the list of settings, on which the macros of the source are expanded; `Integers`, `Video` and
-- `Validate` are the validators, `Load` and `Json` what reads and writes them.
--
-- JsonCpp, the option file, the number parser, the arithmetic of double, `rtc::split`, the file system
-- and the tables of the camera's modes are the record `Outside`. An int is its bit pattern.
pub mod Vars
pub mod Rows
pub mod Integers
pub mod Video
pub mod Validate
pub mod Load
pub mod Json
mod Tests
use rpi_webrtc_streamer.Base.{ℕ, Bool, Option, List, ◌==◌, if◌then◌else◌, Text}
use rpi_webrtc_streamer.ConfigMedia.Vars.{
  IntVar, BoolVar, TextVar, int_index, bool_index, text_index,
}

pub record Outside : Type 1 where
  pub Double : Type 0
  pub double_zero : Double
  pub double_one : Double
  pub video_roi_min : Double
  pub video_roi_max : Double
  pub is_less : Double → Double → Bool
  pub is_greater : Double → Double → Bool
  pub add_double : Double → Double → Double
  pub from_string_int : Text → Option ℕ
  pub from_string_double : Text → Option Double
  pub split : Text → ℕ → List Text
  pub uninit : ℕ
  pub is_folder : Text → Bool
  pub check_exposure_mode : Text → Bool
  pub check_flicker_mode : Text → Bool
  pub check_awb_mode : Text → Bool
  pub check_drc_mode : Text → Bool
  pub Value : Type 0
  pub parse : Text → Option Value
  pub parse_errors : Text → Text
  pub get_value : Value → Text → Option Value
  pub to_text : Value → Option Text
  pub to_int : Value → Option ℕ
  pub to_bool : Value → Option Bool
  pub text_value : Text → Value
  pub int_value : ℕ → Value
  pub bool_value : Bool → Value
  pub json_object : List (Text × Value) → Value
  pub write : Value → Text

pub record VideoRoi (Double : Type 0) : Type 0 where
  pub x : Double
  pub y : Double
  pub width : Double
  pub height : Double

pub record ConfigMedia (Double : Type 0) : Type 0 where
  pub ints : IntVar → ℕ
  pub bools : BoolVar → Bool
  pub texts : TextVar → Text
  pub ints_loaded : IntVar → Bool
  pub bools_loaded : BoolVar → Bool
  pub texts_loaded : TextVar → Bool
  pub fixed_resolution : ℕ × ℕ
  pub resolution_list_4_3 : List (ℕ × ℕ)
  pub resolution_list_16_9 : List (ℕ × ℕ)
  pub roi : VideoRoi Double

-- The settings after an assignment to one.
abbrev pub with_int {ℓ} : {A : Type ℓ} → IntVar → A → (IntVar → A) → IntVar → A
with_int v a f u = if int_index u == int_index v then a else f u

abbrev pub with_bool {ℓ} : {A : Type ℓ} → BoolVar → A → (BoolVar → A) → BoolVar → A
with_bool v a f u = if bool_index u == bool_index v then a else f u

abbrev pub with_text {ℓ} : {A : Type ℓ} → TextVar → A → (TextVar → A) → TextVar → A
with_text v a f u = if text_index u == text_index v then a else f u
