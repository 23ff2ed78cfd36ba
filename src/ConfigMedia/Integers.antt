-- ===== src/ConfigMedia/Integers.antt =====
-- The validators of the integer settings of src/config_media.cc.
pub mod Bounds
use rpi_webrtc_streamer.Base.{ℕ, ◌-◌, Bool, true, not, ◌||◌, ◌==◌, int_mod, lt_int}
use rpi_webrtc_streamer.ConfigMedia.Vars.{
  IntVar, camera_select, max_bitrate, video_rotation, fixed_video_fps,
  audio_jitter_buffer_max_packets, audio_jitter_buffer_min_delay_ms, video_sharpness,
  video_contrast, video_brightness, video_saturation, video_ev, video_annotate_text_size_ratio,
  still_camera_num, still_width, still_height, still_max_age, still_quality, still_capture_interval,
}

-- The pattern of a negative int, and `low <= value && value <= high` on patterns.
abbrev pub negative : ℕ → ℕ
negative n = int_mod - n

abbrev pub is_between : ℕ → ℕ → ℕ → Bool
is_between low high value = not (lt_int value low || lt_int high value)

abbrev pub validate_camera_select : ℕ → Bool
validate_camera_select value = is_between 0 2 value

abbrev pub validate_max_bitrate : ℕ → Bool
validate_max_bitrate value = is_between 200 17000000 value

abbrev pub validate_video_rotation : ℕ → Bool
validate_video_rotation value = value == 0 || value == 90 || value == 180 || value == 270

abbrev pub validate_fixed_video_fps : ℕ → Bool
validate_fixed_video_fps value = is_between 5 30 value

abbrev pub validate_audio_jitter_buffer_max_packets : ℕ → Bool
validate_audio_jitter_buffer_max_packets value = not (lt_int value 0)

abbrev pub validate_audio_jitter_buffer_min_delay_ms : ℕ → Bool
validate_audio_jitter_buffer_min_delay_ms value = not (lt_int value 0)

abbrev pub validate_video_sharpness : ℕ → Bool
validate_video_sharpness value = is_between (negative 100) 100 value

abbrev pub validate_video_contrast : ℕ → Bool
validate_video_contrast value = is_between (negative 100) 100 value

abbrev pub validate_video_brightness : ℕ → Bool
validate_video_brightness value = is_between 0 100 value

abbrev pub validate_video_saturation : ℕ → Bool
validate_video_saturation value = is_between (negative 100) 100 value

abbrev pub validate_video_ev : ℕ → Bool
validate_video_ev value = is_between (negative 10) 10 value

abbrev pub validate_video_annotate_text_size_ratio : ℕ → Bool
validate_video_annotate_text_size_ratio value = not (lt_int value 2 || not (lt_int value 10))

abbrev pub validate_still_camera_num : ℕ → Bool
validate_still_camera_num value = is_between 0 3 value

abbrev pub validate_still_width : ℕ → Bool
validate_still_width value = true

abbrev pub validate_still_height : ℕ → Bool
validate_still_height value = true

abbrev pub validate_still_max_age : ℕ → Bool
validate_still_max_age value = is_between 0 600 value

abbrev pub validate_still_quality : ℕ → Bool
validate_still_quality value = is_between 0 100 value

abbrev pub validate_still_capture_interval : ℕ → Bool
validate_still_capture_interval value = is_between 0 3600 value

unfoldable pub validate_int : IntVar → ℕ → Bool
validate_int camera_select value = validate_camera_select value
validate_int max_bitrate value = validate_max_bitrate value
validate_int video_rotation value = validate_video_rotation value
validate_int fixed_video_fps value = validate_fixed_video_fps value
validate_int audio_jitter_buffer_max_packets value = validate_audio_jitter_buffer_max_packets value
validate_int audio_jitter_buffer_min_delay_ms value =
    validate_audio_jitter_buffer_min_delay_ms value
validate_int video_sharpness value = validate_video_sharpness value
validate_int video_contrast value = validate_video_contrast value
validate_int video_brightness value = validate_video_brightness value
validate_int video_saturation value = validate_video_saturation value
validate_int video_ev value = validate_video_ev value
validate_int video_annotate_text_size_ratio value = validate_video_annotate_text_size_ratio value
validate_int still_camera_num value = validate_still_camera_num value
validate_int still_width value = validate_still_width value
validate_int still_height value = validate_still_height value
validate_int still_max_age value = validate_still_max_age value
validate_int still_quality value = validate_still_quality value
validate_int still_capture_interval value = validate_still_capture_interval value
