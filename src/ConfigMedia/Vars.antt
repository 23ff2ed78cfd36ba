-- ===== src/ConfigMedia/Vars.antt =====
-- The settings of src/def/config_media.def and their rows, in the order of that file.
use rpi_webrtc_streamer.Base.{ℕ, List, [], ◌∷◌}

pub data IntVar : Type 0 where
  camera_select : IntVar
  max_bitrate : IntVar
  video_rotation : IntVar
  fixed_video_fps : IntVar
  audio_jitter_buffer_max_packets : IntVar
  audio_jitter_buffer_min_delay_ms : IntVar
  video_sharpness : IntVar
  video_contrast : IntVar
  video_brightness : IntVar
  video_saturation : IntVar
  video_ev : IntVar
  video_annotate_text_size_ratio : IntVar
  still_camera_num : IntVar
  still_width : IntVar
  still_height : IntVar
  still_max_age : IntVar
  still_quality : IntVar
  still_capture_interval : IntVar

pub data BoolVar : Type 0 where
  resolution_4_3_enable : BoolVar
  video_vflip : BoolVar
  video_hflip : BoolVar
  use_dynamic_video_resolution : BoolVar
  use_dynamic_video_fps : BoolVar
  audio_processing_enable : BoolVar
  audio_echo_cancellation : BoolVar
  audio_auto_gain_control : BoolVar
  audio_noise_suppression : BoolVar
  audio_highpass_filter : BoolVar
  audio_jitter_buffer_enable : BoolVar
  audio_jitter_buffer_fast_accel : BoolVar
  audio_jitter_buffer_enable_rtx_handling : BoolVar
  audio_experimental_agc : BoolVar
  audio_experimental_ns : BoolVar
  video_stabilisation : BoolVar
  video_enable_annotate_text : BoolVar
  still_capture_enable : BoolVar
  still_append_datatime : BoolVar

pub data TextVar : Type 0 where
  video_roi : TextVar
  video_resolution_list_4_3 : TextVar
  video_resolution_list_16_9 : TextVar
  fixed_video_resolution : TextVar
  video_exposure_mode : TextVar
  video_flicker_mode : TextVar
  video_awb_mode : TextVar
  video_drc_mode : TextVar
  video_annotate_text : TextVar
  still_directory : TextVar
  still_file_prefix : TextVar
  still_file_extension : TextVar

-- A row is an integer, a Boolean, a string, or a string that is a list.
pub data Row : Type 0 where
  cr_i : IntVar → Row
  cr_b : BoolVar → Row
  cr : TextVar → Row
  cr_l : TextVar → Row

-- The place of a setting among those of its type.
abbrev pub int_index : IntVar → ℕ
int_index camera_select = 0
int_index max_bitrate = 1
int_index video_rotation = 2
int_index fixed_video_fps = 3
int_index audio_jitter_buffer_max_packets = 4
int_index audio_jitter_buffer_min_delay_ms = 5
int_index video_sharpness = 6
int_index video_contrast = 7
int_index video_brightness = 8
int_index video_saturation = 9
int_index video_ev = 10
int_index video_annotate_text_size_ratio = 11
int_index still_camera_num = 12
int_index still_width = 13
int_index still_height = 14
int_index still_max_age = 15
int_index still_quality = 16
int_index still_capture_interval = 17

-- The place of a setting among those of its type.
abbrev pub bool_index : BoolVar → ℕ
bool_index resolution_4_3_enable = 0
bool_index video_vflip = 1
bool_index video_hflip = 2
bool_index use_dynamic_video_resolution = 3
bool_index use_dynamic_video_fps = 4
bool_index audio_processing_enable = 5
bool_index audio_echo_cancellation = 6
bool_index audio_auto_gain_control = 7
bool_index audio_noise_suppression = 8
bool_index audio_highpass_filter = 9
bool_index audio_jitter_buffer_enable = 10
bool_index audio_jitter_buffer_fast_accel = 11
bool_index audio_jitter_buffer_enable_rtx_handling = 12
bool_index audio_experimental_agc = 13
bool_index audio_experimental_ns = 14
bool_index video_stabilisation = 15
bool_index video_enable_annotate_text = 16
bool_index still_capture_enable = 17
bool_index still_append_datatime = 18

-- The place of a setting among those of its type.
abbrev pub text_index : TextVar → ℕ
text_index video_roi = 0
text_index video_resolution_list_4_3 = 1
text_index video_resolution_list_16_9 = 2
text_index fixed_video_resolution = 3
text_index video_exposure_mode = 4
text_index video_flicker_mode = 5
text_index video_awb_mode = 6
text_index video_drc_mode = 7
text_index video_annotate_text = 8
text_index still_directory = 9
text_index still_file_prefix = 10
text_index still_file_extension = 11

abbrev pub media_config_row_list : List Row
media_config_row_list =
    cr_i camera_select
    ∷ cr video_roi
    ∷ cr_i max_bitrate
    ∷ cr_b resolution_4_3_enable
    ∷ cr_i video_rotation
    ∷ cr_b video_vflip
    ∷ cr_b video_hflip
    ∷ cr_l video_resolution_list_4_3
    ∷ cr_l video_resolution_list_16_9
    ∷ cr_b use_dynamic_video_resolution
    ∷ cr_b use_dynamic_video_fps
    ∷ cr fixed_video_resolution
    ∷ cr_i fixed_video_fps
    ∷ cr_b audio_processing_enable
    ∷ cr_b audio_echo_cancellation
    ∷ cr_b audio_auto_gain_control
    ∷ cr_b audio_noise_suppression
    ∷ cr_b audio_highpass_filter
    ∷ cr_b audio_jitter_buffer_enable
    ∷ cr_i audio_jitter_buffer_max_packets
    ∷ cr_b audio_jitter_buffer_fast_accel
    ∷ cr_i audio_jitter_buffer_min_delay_ms
    ∷ cr_b audio_jitter_buffer_enable_rtx_handling
    ∷ cr_b audio_experimental_agc
    ∷ cr_b audio_experimental_ns
    ∷ cr_i video_sharpness
    ∷ cr_i video_contrast
    ∷ cr_i video_brightness
    ∷ cr_i video_saturation
    ∷ cr_i video_ev
    ∷ cr video_exposure_mode
    ∷ cr video_flicker_mode
    ∷ cr video_awb_mode
    ∷ cr video_drc_mode
    ∷ cr_b video_stabilisation
    ∷ cr_b video_enable_annotate_text
    ∷ cr video_annotate_text
    ∷ cr_i video_annotate_text_size_ratio
    ∷ cr_b still_capture_enable
    ∷ cr_i still_camera_num
    ∷ cr_i still_width
    ∷ cr_i still_height
    ∷ cr_i still_max_age
    ∷ cr_i still_quality
    ∷ cr_i still_capture_interval
    ∷ cr_b still_append_datatime
    ∷ cr still_directory
    ∷ cr still_file_prefix
    ∷ cr still_file_extension
    ∷ []
