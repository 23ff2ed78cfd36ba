-- ===== src/ConfigMotion.antt =====
-- ConfigMotion of src/config_motion.cc: the settings of the motion detection. The option file, the
-- file system and the parser of floats are arguments, and so is the type of floats. An int is its bit
-- pattern.
pub mod Rows
pub mod Bounds
use rpi_webrtc_streamer.Base.{
  ℕ, Bool, true, false, not, ◌||◌, Option, none, some, List, [], ◌∷◌, ltb, ◌==◌, if◌then◌else◌,
  length, Text, codes, same_text, lt_int,
}
use Rows.{
  MotionInt, MotionBool, MotionText, MotionRow, motion_cr_i, motion_cr_b, motion_cr, motion_cr_f,
  motion_int_name, motion_int_default, motion_int_index, motion_bool_name, motion_bool_default,
  motion_bool_index, motion_text_name, motion_text_default, motion_text_index,
  blob_cancel_threshold_name, motion_config_row_list, motion_width, motion_height, motion_fps,
  motion_bitrate, motion_clear_percent, motion_clear_wait_period, motion_file_size_limit,
  motion_annotate_text_size, blob_tracking_threshold, motion_file_total_size_limit,
  motion_directory, motion_file_prefix, motion_annotate_text,
}

abbrev pub max_clear_wait_period : ℕ
max_clear_wait_period = 10000

abbrev pub min_clear_wait_period : ℕ
min_clear_wait_period = 2000

abbrev pub max_clear_percent : ℕ
max_clear_percent = 10

abbrev pub min_clear_percent : ℕ
min_clear_percent = 3

abbrev pub max_motion_fps : ℕ
max_motion_fps = 30

abbrev pub max_annotation_text_length : ℕ
max_annotation_text_length = 256

abbrev pub validate_motion_width : ℕ → Bool
validate_motion_width value = true

abbrev pub validate_motion_height : ℕ → Bool
validate_motion_height value = true

abbrev pub validate_motion_fps : ℕ → Bool
validate_motion_fps value = not (lt_int value 0 || lt_int max_motion_fps value)

abbrev pub validate_motion_bitrate : ℕ → Bool
validate_motion_bitrate value = true

abbrev pub validate_motion_clear_percent : ℕ → Bool
validate_motion_clear_percent value =
    not (lt_int value min_clear_percent || lt_int max_clear_percent value)

abbrev pub validate_motion_clear_wait_period : ℕ → Bool
validate_motion_clear_wait_period value =
    not (lt_int value min_clear_wait_period || lt_int max_clear_wait_period value)

abbrev pub validate_motion_file_size_limit : ℕ → Bool
validate_motion_file_size_limit value = true

abbrev pub validate_motion_annotate_text_size : ℕ → Bool
validate_motion_annotate_text_size value = not (lt_int value 6 || not (lt_int value 160))

abbrev pub validate_blob_tracking_threshold : ℕ → Bool
validate_blob_tracking_threshold value = true

abbrev pub validate_motion_file_total_size_limit : ℕ → Bool
validate_motion_file_total_size_limit value = true

unfoldable pub validate_motion_int : MotionInt → ℕ → Bool
validate_motion_int motion_width value = validate_motion_width value
validate_motion_int motion_height value = validate_motion_height value
validate_motion_int motion_fps value = validate_motion_fps value
validate_motion_int motion_bitrate value = validate_motion_bitrate value
validate_motion_int motion_clear_percent value = validate_motion_clear_percent value
validate_motion_int motion_clear_wait_period value = validate_motion_clear_wait_period value
validate_motion_int motion_file_size_limit value = validate_motion_file_size_limit value
validate_motion_int motion_annotate_text_size value = validate_motion_annotate_text_size value
validate_motion_int blob_tracking_threshold value = validate_blob_tracking_threshold value
validate_motion_int motion_file_total_size_limit value = validate_motion_file_total_size_limit value

pub record ConfigMotion (Float : Type 0) : Type 0 where
  pub motion_ints : MotionInt → ℕ
  pub motion_bools : MotionBool → Bool
  pub motion_texts : MotionText → Text
  pub blob_cancel_threshold : Float
  pub motion_ints_loaded : MotionInt → Bool
  pub motion_bools_loaded : MotionBool → Bool
  pub motion_texts_loaded : MotionText → Bool
  pub blob_cancel_threshold_loaded : Bool
  pub config_loaded : Bool

-- The settings after an assignment to one.
abbrev pub with_motion_int {ℓ} : {A : Type ℓ} → MotionInt → A → (MotionInt → A) → MotionInt → A
with_motion_int v a f u = if motion_int_index u == motion_int_index v then a else f u

abbrev pub with_motion_bool {ℓ} : {A : Type ℓ} → MotionBool → A → (MotionBool → A) → MotionBool → A
with_motion_bool v a f u = if motion_bool_index u == motion_bool_index v then a else f u

abbrev pub with_motion_text {ℓ} : {A : Type ℓ} → MotionText → A → (MotionText → A) → MotionText → A
with_motion_text v a f u = if motion_text_index u == motion_text_index v then a else f u

module _ (is_folder : Text → Bool) where
  abbrev pub validate_motion_directory : Text → Bool
  validate_motion_directory value = is_folder value

  abbrev pub validate_motion_file_prefix : Text → Bool
  validate_motion_file_prefix value = true

  abbrev pub validate_motion_annotate_text : Text → Bool
  validate_motion_annotate_text value = not (ltb max_annotation_text_length (length value))

  unfoldable pub validate_motion_text : MotionText → Text → Bool
  validate_motion_text motion_directory value = validate_motion_directory value
  validate_motion_text motion_file_prefix value = validate_motion_file_prefix value
  validate_motion_text motion_annotate_text value = validate_motion_annotate_text value

module _ {Float : Type 0} (half : Float) where
  unfoldable pub init_row : MotionRow → ConfigMotion Float → ConfigMotion Float
  init_row (motion_cr_i v) c = record c {
    motion_ints = with_motion_int v (motion_int_default v) c.motion_ints;
    motion_ints_loaded = with_motion_int v false c.motion_ints_loaded;
  }
  init_row (motion_cr_b v) c = record c {
    motion_bools = with_motion_bool v (motion_bool_default v) c.motion_bools;
    motion_bools_loaded = with_motion_bool v false c.motion_bools_loaded;
  }
  init_row (motion_cr v) c = record c {
    motion_texts = with_motion_text v (motion_text_default v) c.motion_texts;
    motion_texts_loaded = with_motion_text v false c.motion_texts_loaded;
  }
  init_row motion_cr_f c = record c {
    blob_cancel_threshold = half;
    blob_cancel_threshold_loaded = false;
  }

  unfoldable pub init_rows : List MotionRow → ConfigMotion Float → ConfigMotion Float
  unfolding init_row
  init_rows [] c = c
  init_rows (r ∷ rs) c = init_rows rs (init_row r c)

module _ {Float : Type 0} (is_folder : Text → Bool) (from_string_float : Text → Option Float)
    (option_text : Text → Option Text) (option_int : Text → Option ℕ) where
  -- The float is not refused by its validator. A Boolean row does not become a loaded one.
  unfoldable pub read_row : MotionRow → ConfigMotion Float → ConfigMotion Float
  unfolding validate_motion_int validate_motion_text
  read_row (motion_cr_i v) c = elim (option_int (motion_int_name v)) [
    | none ↦ c
    | some value ↦
        if validate_motion_int v value
        then record c {
          motion_ints = with_motion_int v value c.motion_ints;
          motion_ints_loaded = with_motion_int v true c.motion_ints_loaded;
        }
        else c
  ]
  read_row (motion_cr_b v) c = elim (option_text (motion_bool_name v)) [
    | none ↦ c
    | some value ↦
        if same_text value (codes "true")
        then record c { motion_bools = with_motion_bool v true c.motion_bools }
        else (if same_text value (codes "false")
            then record c { motion_bools = with_motion_bool v false c.motion_bools }
            else c)
  ]
  read_row (motion_cr v) c = elim (option_text (motion_text_name v)) [
    | none ↦ c
    | some value ↦
        if validate_motion_text is_folder v value
        then record c {
          motion_texts = with_motion_text v value c.motion_texts;
          motion_texts_loaded = with_motion_text v true c.motion_texts_loaded;
        }
        else c
  ]
  read_row motion_cr_f c = elim (option_text blob_cancel_threshold_name) [
    | none ↦ c
    | some value ↦ elim (from_string_float value) [
      | none ↦ c
      | some x ↦ record c { blob_cancel_threshold = x; blob_cancel_threshold_loaded = true }
    ]
  ]

  unfoldable pub read_rows : List MotionRow → ConfigMotion Float → ConfigMotion Float
  unfolding read_row
  read_rows [] c = c
  read_rows (r ∷ rs) c = read_rows rs (read_row r c)

  -- `file_loaded` is what the Load of the option file returns.
  unfoldable pub load_motion : Float → Bool → ConfigMotion Float → Bool × ConfigMotion Float
  unfolding init_rows read_rows
  load_motion half file_loaded c =
      if file_loaded
      then (
        true,
        record (read_rows motion_config_row_list (init_rows half motion_config_row_list c)) {
          config_loaded = true;
        },
      )
      else (false, c)
