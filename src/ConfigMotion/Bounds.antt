-- ===== src/ConfigMotion/Bounds.antt =====
-- The ranges of the motion settings after a load.
use rpi_webrtc_streamer.Base.{
  ℕ, ◌≤◌, ◌<◌, ◌^◌, ◌≡◌, refl, sym, ap, subst, ◌∙◌, Bool, true, Option, some, List, [], ◌∷◌, arith,
  ◌==◌, if_split, if_cases, option_cases, option_split, get_elem?, ==_iff, Text, codes, same_text,
}
use rpi_webrtc_streamer.ConfigMotion.Rows.{
  MotionInt, MotionRow, motion_cr_i, motion_cr_b, motion_cr, motion_cr_f, motion_int_name,
  motion_int_default, motion_int_index, motion_bool_name, motion_text_name,
  blob_cancel_threshold_name, motion_config_row_list, motion_width, motion_height, motion_fps,
  motion_bitrate, motion_clear_percent, motion_clear_wait_period, motion_file_size_limit,
  motion_annotate_text_size, blob_tracking_threshold, motion_file_total_size_limit,
}
use rpi_webrtc_streamer.ConfigMotion.{
  ConfigMotion, with_motion_int, validate_motion_int, validate_motion_text, init_rows, read_row,
  read_rows, load_motion,
}

unfoldable pub InRange : MotionInt → ℕ → Type 0
InRange motion_width value = Unit
InRange motion_height value = Unit
InRange motion_fps value = value ≤ 30
InRange motion_bitrate value = Unit
InRange motion_clear_percent value = (3 ≤ value) × (value ≤ 10)
InRange motion_clear_wait_period value = (2000 ≤ value) × (value ≤ 10000)
InRange motion_file_size_limit value = Unit
InRange motion_annotate_text_size value = (6 ≤ value) × (value < 160)
InRange blob_tracking_threshold value = Unit
InRange motion_file_total_size_limit value = Unit

motion_ints_in_order : List MotionInt
motion_ints_in_order =
    motion_width ∷ motion_height ∷ motion_fps ∷ motion_bitrate ∷ motion_clear_percent
    ∷ motion_clear_wait_period ∷ motion_file_size_limit ∷ motion_annotate_text_size
    ∷ blob_tracking_threshold ∷ motion_file_total_size_limit ∷ []

get_elem?-motion_int_index :
    (v : MotionInt) → get_elem? motion_ints_in_order (motion_int_index v) ≡ some v
unfolding motion_ints_in_order
get_elem?-motion_int_index motion_width = refl
get_elem?-motion_int_index motion_height = refl
get_elem?-motion_int_index motion_fps = refl
get_elem?-motion_int_index motion_bitrate = refl
get_elem?-motion_int_index motion_clear_percent = refl
get_elem?-motion_int_index motion_clear_wait_period = refl
get_elem?-motion_int_index motion_file_size_limit = refl
get_elem?-motion_int_index motion_annotate_text_size = refl
get_elem?-motion_int_index blob_tracking_threshold = refl
get_elem?-motion_int_index motion_file_total_size_limit = refl

motion_int_index_inj : (u v : MotionInt) → motion_int_index u ≡ motion_int_index v → u ≡ v
motion_int_index_inj u v e = some_inj (
    sym (get_elem?-motion_int_index u)
    ∙ ap (get_elem? motion_ints_in_order) e
    ∙ get_elem?-motion_int_index v)
  where
    some_inj : some u ≡ some v → u ≡ v
    some_inj h = cc

validate_motion_int-InRange :
    (v : MotionInt) (value : ℕ)
    → value < 2 ^ 32
    → validate_motion_int v value ≡ true
    → InRange v value
unfolding validate_motion_int InRange
validate_motion_int-InRange motion_width value small h = tt
validate_motion_int-InRange motion_height value small h = tt
validate_motion_int-InRange motion_fps value small h = ground (arith, h)
validate_motion_int-InRange motion_bitrate value small h = tt
validate_motion_int-InRange motion_clear_percent value small h = ground (arith, h)
validate_motion_int-InRange motion_clear_wait_period value small h = ground (arith, h)
validate_motion_int-InRange motion_file_size_limit value small h = tt
validate_motion_int-InRange motion_annotate_text_size value small h = ground (arith, h)
validate_motion_int-InRange blob_tracking_threshold value small h = tt
validate_motion_int-InRange motion_file_total_size_limit value small h = tt

motion_int_default-InRange : (v : MotionInt) → InRange v (motion_int_default v)
unfolding InRange
motion_int_default-InRange motion_width = tt
motion_int_default-InRange motion_height = tt
motion_int_default-InRange motion_fps = omega arith
motion_int_default-InRange motion_bitrate = tt
motion_int_default-InRange motion_clear_percent = (omega arith, omega arith)
motion_int_default-InRange motion_clear_wait_period = (omega arith, omega arith)
motion_int_default-InRange motion_file_size_limit = tt
motion_int_default-InRange motion_annotate_text_size = (omega arith, omega arith)
motion_int_default-InRange blob_tracking_threshold = tt
motion_int_default-InRange motion_file_total_size_limit = tt

with_motion_int-InRange :
    (v u : MotionInt) (value : ℕ) (ints : MotionInt → ℕ)
    → InRange v value
    → InRange u (ints u)
    → InRange u (with_motion_int v value ints u)
with_motion_int-InRange v u value ints fits before =
    if_split (InRange u) (motion_int_index u == motion_int_index v)
      (λ e. subst (λ w. InRange w value) (sym (motion_int_index_inj u v ((==_iff _ _).0 e))) fits)
      λ e. before

module _ {Float : Type 0} (is_folder : Text → Bool) (from_string_float : Text → Option Float)
    (option_text : Text → Option Text) (option_int : Text → Option ℕ)
    (is_int : (name : Text) (n : ℕ) → option_int name ≡ some n → n < 2 ^ 32) where
  abbrev Fits : ConfigMotion Float → Type 0
  Fits c = (v : MotionInt) → InRange v (c.motion_ints v)

  read_row-Fits :
      (r : MotionRow) (c : ConfigMotion Float)
      → Fits c
      → Fits (read_row is_folder from_string_float option_text option_int r c)
  unfolding read_row
  read_row-Fits (motion_cr_i v) c fits =
      option_split Fits (option_int (motion_int_name v)) fits λ value e.
        if_split Fits (validate_motion_int v value)
          (λ ok u.
            with_motion_int-InRange v u value c.motion_ints
              (validate_motion_int-InRange v value (is_int _ value e) ok) (fits u))
          λ ok. fits
  read_row-Fits (motion_cr_b v) c fits =
      option_cases Fits (option_text (motion_bool_name v)) fits λ value.
        if_cases Fits (same_text value (codes "true")) fits
          (if_cases Fits (same_text value (codes "false")) fits fits)
  read_row-Fits (motion_cr v) c fits =
      option_cases Fits (option_text (motion_text_name v)) fits
        λ value. if_cases Fits (validate_motion_text is_folder v value) fits fits
  read_row-Fits motion_cr_f c fits =
      option_cases Fits (option_text blob_cancel_threshold_name) fits
        λ value. option_cases Fits (from_string_float value) fits λ x. fits

  read_rows-Fits :
      (rs : List MotionRow) (c : ConfigMotion Float)
      → Fits c
      → Fits (read_rows is_folder from_string_float option_text option_int rs c)
  unfolding read_rows
  read_rows-Fits [] c fits = fits
  read_rows-Fits (r ∷ rs) c fits = read_rows-Fits rs _ (read_row-Fits r c fits)

  -- The defaults, whatever the memory held before.
  init_rows-default :
      (half : Float) (memory : ConfigMotion Float) (v : MotionInt)
      → (init_rows half motion_config_row_list memory).motion_ints v ≡ motion_int_default v
  unfolding init_rows
  init_rows-default half memory motion_width = refl
  init_rows-default half memory motion_height = refl
  init_rows-default half memory motion_fps = refl
  init_rows-default half memory motion_bitrate = refl
  init_rows-default half memory motion_clear_percent = refl
  init_rows-default half memory motion_clear_wait_period = refl
  init_rows-default half memory motion_file_size_limit = refl
  init_rows-default half memory motion_annotate_text_size = refl
  init_rows-default half memory blob_tracking_threshold = refl
  init_rows-default half memory motion_file_total_size_limit = refl

  -- After a load of an option file whose numbers are ints, whatever the memory held before, every
  -- integer setting of the motion detection is in its range.
  load_motion-InRange :
      (half : Float) (memory : ConfigMotion Float) (v : MotionInt)
      → InRange v (
          (load_motion is_folder from_string_float option_text option_int half true
              memory).1.motion_ints
            v)
  unfolding load_motion
  load_motion-InRange half memory v =
      read_rows-Fits motion_config_row_list (init_rows half motion_config_row_list memory)
        (λ u.
          subst (InRange u) (sym (init_rows-default half memory u)) (motion_int_default-InRange u))
        v
