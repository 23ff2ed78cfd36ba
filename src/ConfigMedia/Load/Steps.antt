-- ===== src/ConfigMedia/Load/Steps.antt =====
-- Whatever is loaded, set or sent in a message, the integer settings keep to their ranges.
use rpi_webrtc_streamer.Base.{
  ℕ, ◌<◌, ◌^◌, ◌≡◌, refl, sym, ap, subst, ◌∙◌, Bool, Option, some, List, [], ◌∷◌, arith, if_split,
  if_cases, option_cases, option_split, Text, codes, same_text,
}
use rpi_webrtc_streamer.ConfigMedia.{Outside, with_int}
use rpi_webrtc_streamer.ConfigMedia.Vars.{
  IntVar, TextVar, Row, cr_i, cr_b, cr, cr_l, media_config_row_list, video_roi,
  video_resolution_list_4_3, video_resolution_list_16_9, fixed_video_resolution,
  video_exposure_mode, video_flicker_mode, video_awb_mode, video_drc_mode, video_annotate_text,
  still_directory, still_file_prefix, still_file_extension, camera_select, max_bitrate,
  video_rotation, fixed_video_fps, audio_jitter_buffer_max_packets,
  audio_jitter_buffer_min_delay_ms, video_sharpness, video_contrast, video_brightness,
  video_saturation, video_ev, video_annotate_text_size_ratio, still_camera_num, still_width,
  still_height, still_max_age, still_quality, still_capture_interval,
}
use rpi_webrtc_streamer.ConfigMedia.Rows.{int_default, int_name, bool_name, text_name}
use rpi_webrtc_streamer.ConfigMedia.Integers.{validate_int}
use rpi_webrtc_streamer.ConfigMedia.Validate.{
  validate_text, validate_fixed_video_resolution, validate_video_roi,
  validate_video_resolution_list_4_3, validate_video_resolution_list_16_9, set_int, set_text,
}
use rpi_webrtc_streamer.ConfigMedia.Integers.Bounds.{
  IsBounded, validate_int-IsBounded, int_default-IsBounded, with_int-IsBounded,
}
use rpi_webrtc_streamer.ConfigMedia.Load.{
  Settings, reset_row, reset_rows, reset, load_text, load_row, load_rows,
}

abbrev pub AllBounded : (IntVar → ℕ) → Type 0
AllBounded ints = (v : IntVar) → IsBounded v (ints v)

-- What Reset makes of the integers.
abbrev reset_ints : Row → (IntVar → ℕ) → IntVar → ℕ
reset_ints (cr_i v) ints = with_int v (int_default v) ints
reset_ints (cr_b v) ints = ints
reset_ints (cr v) ints = ints
reset_ints (cr_l v) ints = ints

abbrev reset_all_ints : List Row → (IntVar → ℕ) → IntVar → ℕ
reset_all_ints [] ints = ints
reset_all_ints (r ∷ rs) ints = reset_all_ints rs (reset_ints r ints)

module _ (O : Outside) where
  validate_text-ints :
      (v : TextVar) (text : Text) (c : Settings O) → (validate_text O v text c).1.ints ≡ c.ints
  unfolding validate_text validate_fixed_video_resolution validate_video_roi
      validate_video_resolution_list_4_3 validate_video_resolution_list_16_9
  validate_text-ints video_roi text c = ground arith
  validate_text-ints video_resolution_list_4_3 text c = ground arith
  validate_text-ints video_resolution_list_16_9 text c = ground arith
  validate_text-ints fixed_video_resolution text c = ground arith
  validate_text-ints video_exposure_mode text c = refl
  validate_text-ints video_flicker_mode text c = refl
  validate_text-ints video_awb_mode text c = refl
  validate_text-ints video_drc_mode text c = refl
  validate_text-ints video_annotate_text text c = refl
  validate_text-ints still_directory text c = refl
  validate_text-ints still_file_prefix text c = refl
  validate_text-ints still_file_extension text c = refl

  reset_row-ints : (r : Row) (c : Settings O) → (reset_row O r c).ints ≡ reset_ints r c.ints
  unfolding reset_row
  reset_row-ints (cr_i v) c = refl
  reset_row-ints (cr_b v) c = refl
  reset_row-ints (cr v) c = refl
  reset_row-ints (cr_l v) c = validate_text-ints v _ _

  reset_rows-ints :
      (rs : List Row) (c : Settings O) → (reset_rows O rs c).ints ≡ reset_all_ints rs c.ints
  unfolding reset_rows
  reset_rows-ints [] c = refl
  reset_rows-ints (r ∷ rs) c =
      reset_rows-ints rs (reset_row O r c) ∙ ap (reset_all_ints rs) (reset_row-ints r c)

  pub set_text-ints :
      (v : TextVar) (text : Text) (c : Settings O) → (set_text O v text c).1.ints ≡ c.ints
  unfolding set_text
  set_text-ints v text c =
      if_cases (λ (r : Bool × Settings O). r.1.ints ≡ c.ints) (validate_text O v text c).0
        (validate_text-ints v text c) (validate_text-ints v text c)

  pub set_int-AllBounded :
      (v : IntVar) (value : ℕ) (c : Settings O)
      → value < 2 ^ 32
      → AllBounded c.ints
      → AllBounded (set_int O v value c).1.ints
  unfolding set_int
  set_int-AllBounded v value c small bounded =
      if_split (λ (r : Bool × Settings O). AllBounded r.1.ints) (validate_int v value)
        (λ e u.
          with_int-IsBounded v u value c.ints (validate_int-IsBounded v value small e) (bounded u))
        λ e. bounded

  reset-ints : (v : IntVar) (c : Settings O) → (reset O c).ints v ≡ int_default v
  unfolding reset
  reset-ints v c = ap (λ f. f v) (reset_rows-ints media_config_row_list c) ∙ all v
    where
      all : (u : IntVar) → reset_all_ints media_config_row_list c.ints u ≡ int_default u
      all camera_select = refl
      all max_bitrate = refl
      all video_rotation = refl
      all fixed_video_fps = refl
      all audio_jitter_buffer_max_packets = refl
      all audio_jitter_buffer_min_delay_ms = refl
      all video_sharpness = refl
      all video_contrast = refl
      all video_brightness = refl
      all video_saturation = refl
      all video_ev = refl
      all video_annotate_text_size_ratio = refl
      all still_camera_num = refl
      all still_width = refl
      all still_height = refl
      all still_max_age = refl
      all still_quality = refl
      all still_capture_interval = refl

  pub reset-AllBounded : (c : Settings O) → AllBounded (reset O c).ints
  reset-AllBounded c v = subst (IsBounded v) (sym (reset-ints v c)) (int_default-IsBounded v)

  -- The rows of an option file whose numbers are ints.
  module _ (option_text : Text → Option Text) (option_int : Text → Option ℕ)
      (is_int : (name : Text) (n : ℕ) → option_int name ≡ some n → n < 2 ^ 32) where
    load_text-ints :
        (v : TextVar) (c : Settings O) → (load_text O option_text option_int v c).ints ≡ c.ints
    unfolding load_text
    load_text-ints v c =
        option_cases (λ (d : Settings O). d.ints ≡ c.ints) (option_text (text_name v)) refl
          λ value.
            if_cases (λ (d : Settings O). d.ints ≡ c.ints) (validate_text O v value c).0
              (validate_text-ints v value c) (validate_text-ints v value c)

    load_row-AllBounded :
        (r : Row) (c : Settings O)
        → AllBounded c.ints
        → AllBounded (load_row O option_text option_int r c).ints
    unfolding load_row
    load_row-AllBounded (cr_i v) c bounded =
        option_split Goal (option_int (int_name v)) bounded λ value e.
          if_split Goal (validate_int v value)
            (λ ok u.
              with_int-IsBounded v u value c.ints
                (validate_int-IsBounded v value (is_int _ value e) ok) (bounded u))
            λ ok. bounded
      where
        Goal : Settings O → Type 0
        Goal d = AllBounded d.ints
    load_row-AllBounded (cr_b v) c bounded =
        option_cases Goal (option_text (bool_name v)) bounded λ value.
          if_cases Goal (same_text value (codes "true")) bounded
            (if_cases Goal (same_text value (codes "false")) bounded bounded)
      where
        Goal : Settings O → Type 0
        Goal d = AllBounded d.ints
    load_row-AllBounded (cr v) c bounded = subst AllBounded (sym (load_text-ints v c)) bounded
    load_row-AllBounded (cr_l v) c bounded = subst AllBounded (sym (load_text-ints v c)) bounded

    pub load_rows-AllBounded :
        (rs : List Row) (c : Settings O)
        → AllBounded c.ints
        → AllBounded (load_rows O option_text option_int rs c).ints
    unfolding load_rows
    load_rows-AllBounded [] c bounded = bounded
    load_rows-AllBounded (r ∷ rs) c bounded =
        load_rows-AllBounded rs _ (load_row-AllBounded r c bounded)
