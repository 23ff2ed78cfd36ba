-- ===== src/ConfigMedia/Validate.antt =====
-- The validators of the string settings of src/config_media.cc, and the setters.
use rpi_webrtc_streamer.Base.{
  ℕ, Bool, true, false, not, ◌||◌, none, some, ltb, ◌==◌, if◌then◌else◌, length, Text,
}
use rpi_webrtc_streamer.Utils.{parse_video_resolution}
use rpi_webrtc_streamer.ConfigMedia.{Outside, ConfigMedia, with_int, with_bool, with_text}
use rpi_webrtc_streamer.ConfigMedia.Vars.{
  IntVar, BoolVar, TextVar, video_roi, video_resolution_list_4_3, video_resolution_list_16_9,
  fixed_video_resolution, video_exposure_mode, video_flicker_mode, video_awb_mode, video_drc_mode,
  video_annotate_text, still_directory, still_file_prefix, still_file_extension,
}
use rpi_webrtc_streamer.ConfigMedia.Integers.{validate_int}
use rpi_webrtc_streamer.ConfigMedia.Video.{
  parse_vidio_resolution, parse_video_roi, validate_resolution,
}

module _ (O : Outside) where
  -- A text that is no size is not refused.
  unfoldable pub validate_fixed_video_resolution :
      Text → ConfigMedia O.Double → Bool × ConfigMedia O.Double
  unfolding validate_resolution
  validate_fixed_video_resolution text c =
      let (ok, width, height) = parse_video_resolution O.from_string_int 0 text O.uninit in
      if ok
      then (if validate_resolution O width height c
          then (true, record c { fixed_resolution = (width, height) })
          else (false, c))
      else (true, c)

  unfoldable pub validate_video_roi : Text → ConfigMedia O.Double → Bool × ConfigMedia O.Double
  unfolding parse_video_roi
  validate_video_roi text c = elim (parse_video_roi O text) [
    | none ↦ (false, c)
    | some r ↦ (true, record c { roi = r })
  ]

  unfoldable pub validate_video_resolution_list_4_3 :
      Text → ConfigMedia O.Double → Bool × ConfigMedia O.Double
  unfolding parse_vidio_resolution
  validate_video_resolution_list_4_3 text c = elim (parse_vidio_resolution O text) [
    | none ↦ (false, c)
    | some sizes ↦ (true, record c { resolution_list_4_3 = sizes })
  ]

  unfoldable pub validate_video_resolution_list_16_9 :
      Text → ConfigMedia O.Double → Bool × ConfigMedia O.Double
  unfolding parse_vidio_resolution
  validate_video_resolution_list_16_9 text c = elim (parse_vidio_resolution O text) [
    | none ↦ (false, c)
    | some sizes ↦ (true, record c { resolution_list_16_9 = sizes })
  ]

  abbrev pub validate_video_exposure_mode :
      Text → ConfigMedia O.Double → Bool × ConfigMedia O.Double
  validate_video_exposure_mode text c = (O.check_exposure_mode text, c)

  abbrev pub validate_video_flicker_mode : Text → ConfigMedia O.Double → Bool × ConfigMedia O.Double
  validate_video_flicker_mode text c = (O.check_flicker_mode text, c)

  abbrev pub validate_video_awb_mode : Text → ConfigMedia O.Double → Bool × ConfigMedia O.Double
  validate_video_awb_mode text c = (O.check_awb_mode text, c)

  abbrev pub validate_video_drc_mode : Text → ConfigMedia O.Double → Bool × ConfigMedia O.Double
  validate_video_drc_mode text c = (O.check_drc_mode text, c)

  abbrev pub validate_still_directory : Text → ConfigMedia O.Double → Bool × ConfigMedia O.Double
  validate_still_directory text c = (O.is_folder text, c)

  abbrev pub validate_still_file_prefix : Text → ConfigMedia O.Double → Bool × ConfigMedia O.Double
  validate_still_file_prefix text c = (true, c)

  abbrev pub validate_still_file_extension :
      Text → ConfigMedia O.Double → Bool × ConfigMedia O.Double
  validate_still_file_extension text c = (true, c)

  abbrev pub validate_video_annotate_text :
      Text → ConfigMedia O.Double → Bool × ConfigMedia O.Double
  validate_video_annotate_text text c = (not (length text == 0 || ltb 64 (length text)), c)

  unfoldable pub validate_text : TextVar → Text → ConfigMedia O.Double → Bool × ConfigMedia O.Double
  unfolding validate_fixed_video_resolution validate_video_roi validate_video_resolution_list_4_3
      validate_video_resolution_list_16_9
  validate_text video_roi text c = validate_video_roi text c
  validate_text video_resolution_list_4_3 text c = validate_video_resolution_list_4_3 text c
  validate_text video_resolution_list_16_9 text c = validate_video_resolution_list_16_9 text c
  validate_text fixed_video_resolution text c = validate_fixed_video_resolution text c
  validate_text video_exposure_mode text c = validate_video_exposure_mode text c
  validate_text video_flicker_mode text c = validate_video_flicker_mode text c
  validate_text video_awb_mode text c = validate_video_awb_mode text c
  validate_text video_drc_mode text c = validate_video_drc_mode text c
  validate_text video_annotate_text text c = validate_video_annotate_text text c
  validate_text still_directory text c = validate_still_directory text c
  validate_text still_file_prefix text c = validate_still_file_prefix text c
  validate_text still_file_extension text c = validate_still_file_extension text c

  unfoldable pub set_int : IntVar → ℕ → ConfigMedia O.Double → Bool × ConfigMedia O.Double
  unfolding validate_int
  set_int v value c =
      if validate_int v value
      then (
        true,
        record c { ints = with_int v value c.ints; ints_loaded = with_int v true c.ints_loaded },
      )
      else (false, c)

  unfoldable pub set_bool : BoolVar → Bool → ConfigMedia O.Double → Bool × ConfigMedia O.Double
  set_bool v value c = (
    true,
    record c { bools = with_bool v value c.bools; bools_loaded = with_bool v true c.bools_loaded },
  )

  unfoldable pub set_text : TextVar → Text → ConfigMedia O.Double → Bool × ConfigMedia O.Double
  unfolding validate_text
  set_text v value c =
      let (ok, c') = validate_text v value c in
      if ok
      then (
        true,
        record c' {
          texts = with_text v value c'.texts;
          texts_loaded = with_text v true c'.texts_loaded;
        },
      )
      else (false, c')
