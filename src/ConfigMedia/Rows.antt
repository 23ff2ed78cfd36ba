-- ===== src/ConfigMedia/Rows.antt =====
-- The rows of src/def/config_media.def: the names of the settings in the option file and in messages,
-- whether a message may change them, and their defaults.
use rpi_webrtc_streamer.Base.{ℕ, Bool, true, false, [], Text, codes}
use rpi_webrtc_streamer.ConfigMedia.Vars.{
  BoolVar, IntVar, TextVar, audio_auto_gain_control, audio_echo_cancellation,
  audio_experimental_agc, audio_experimental_ns, audio_highpass_filter, audio_jitter_buffer_enable,
  audio_jitter_buffer_enable_rtx_handling, audio_jitter_buffer_fast_accel,
  audio_jitter_buffer_max_packets, audio_jitter_buffer_min_delay_ms, audio_noise_suppression,
  audio_processing_enable, camera_select, fixed_video_fps, fixed_video_resolution, max_bitrate,
  resolution_4_3_enable, still_append_datatime, still_camera_num, still_capture_enable,
  still_capture_interval, still_directory, still_file_extension, still_file_prefix, still_height,
  still_max_age, still_quality, still_width, use_dynamic_video_fps, use_dynamic_video_resolution,
  video_annotate_text, video_annotate_text_size_ratio, video_awb_mode, video_brightness,
  video_contrast, video_drc_mode, video_enable_annotate_text, video_ev, video_exposure_mode,
  video_flicker_mode, video_hflip, video_resolution_list_16_9, video_resolution_list_4_3, video_roi,
  video_rotation, video_saturation, video_sharpness, video_stabilisation, video_vflip,
}

abbrev pub int_name : IntVar → Text
int_name camera_select = codes "camera_select"
int_name max_bitrate = codes "max_bitrate"
int_name video_rotation = codes "video_rotation"
int_name fixed_video_fps = codes "fixed_video_fps"
int_name audio_jitter_buffer_max_packets = codes "audio_jitter_buffer_max_packets"
int_name audio_jitter_buffer_min_delay_ms = codes "audio_jitter_buffer_min_delay_ms"
int_name video_sharpness = codes "video_sharpness"
int_name video_contrast = codes "video_contrast"
int_name video_brightness = codes "video_brightness"
int_name video_saturation = codes "video_saturation"
int_name video_ev = codes "video_ev"
int_name video_annotate_text_size_ratio = codes "video_annotate_text_size_ratio"
int_name still_camera_num = codes "still_camera_num"
int_name still_width = codes "still_width"
int_name still_height = codes "still_height"
int_name still_max_age = codes "still_max_age"
int_name still_quality = codes "still_quality"
int_name still_capture_interval = codes "still_capture_interval"

abbrev pub int_remote_access : IntVar → Bool
int_remote_access camera_select = false
int_remote_access max_bitrate = false
int_remote_access video_rotation = true
int_remote_access fixed_video_fps = false
int_remote_access audio_jitter_buffer_max_packets = false
int_remote_access audio_jitter_buffer_min_delay_ms = false
int_remote_access video_sharpness = true
int_remote_access video_contrast = true
int_remote_access video_brightness = true
int_remote_access video_saturation = true
int_remote_access video_ev = true
int_remote_access video_annotate_text_size_ratio = true
int_remote_access still_camera_num = false
int_remote_access still_width = false
int_remote_access still_height = false
int_remote_access still_max_age = false
int_remote_access still_quality = false
int_remote_access still_capture_interval = false

abbrev pub int_default : IntVar → ℕ
int_default camera_select = 0
int_default max_bitrate = 3500000
int_default video_rotation = 0
int_default fixed_video_fps = 30
int_default audio_jitter_buffer_max_packets = 75
int_default audio_jitter_buffer_min_delay_ms = 20
int_default video_sharpness = 0
int_default video_contrast = 0
int_default video_brightness = 50
int_default video_saturation = 0
int_default video_ev = 2
int_default video_annotate_text_size_ratio = 3
int_default still_camera_num = 0
int_default still_width = 640
int_default still_height = 480
int_default still_max_age = 300
int_default still_quality = 85
int_default still_capture_interval = 300

abbrev pub bool_name : BoolVar → Text
bool_name resolution_4_3_enable = codes "resolution_4_3_enable"
bool_name video_vflip = codes "video_vflip"
bool_name video_hflip = codes "video_hflip"
bool_name use_dynamic_video_resolution = codes "use_dynamic_video_resolution"
bool_name use_dynamic_video_fps = codes "use_dynamic_video_fps"
bool_name audio_processing_enable = codes "audio_processing_enable"
bool_name audio_echo_cancellation = codes "audio_echo_cancellation"
bool_name audio_auto_gain_control = codes "audio_auto_gain_control"
bool_name audio_noise_suppression = codes "audio_noise_suppression"
bool_name audio_highpass_filter = codes "audio_highpass_filter"
bool_name audio_jitter_buffer_enable = codes "audio_jitter_buffer_enable"
bool_name audio_jitter_buffer_fast_accel = codes "audio_jitter_buffer_fast_accel"
bool_name audio_jitter_buffer_enable_rtx_handling = codes "audio_jitter_buffer_enable_rtx_handling"
bool_name audio_experimental_agc = codes "audio_experimental_agc"
bool_name audio_experimental_ns = codes "audio_experimental_ns"
bool_name video_stabilisation = codes "video_stabilisation"
bool_name video_enable_annotate_text = codes "video_enable_annotate_text"
bool_name still_capture_enable = codes "still_capture_enable"
bool_name still_append_datatime = codes "still_append_datatime"

abbrev pub bool_remote_access : BoolVar → Bool
bool_remote_access resolution_4_3_enable = false
bool_remote_access video_vflip = true
bool_remote_access video_hflip = true
bool_remote_access use_dynamic_video_resolution = false
bool_remote_access use_dynamic_video_fps = false
bool_remote_access audio_processing_enable = false
bool_remote_access audio_echo_cancellation = false
bool_remote_access audio_auto_gain_control = false
bool_remote_access audio_noise_suppression = false
bool_remote_access audio_highpass_filter = false
bool_remote_access audio_jitter_buffer_enable = false
bool_remote_access audio_jitter_buffer_fast_accel = false
bool_remote_access audio_jitter_buffer_enable_rtx_handling = false
bool_remote_access audio_experimental_agc = false
bool_remote_access audio_experimental_ns = false
bool_remote_access video_stabilisation = false
bool_remote_access video_enable_annotate_text = true
bool_remote_access still_capture_enable = false
bool_remote_access still_append_datatime = false

abbrev pub bool_default : BoolVar → Bool
bool_default resolution_4_3_enable = true
bool_default video_vflip = false
bool_default video_hflip = false
bool_default use_dynamic_video_resolution = true
bool_default use_dynamic_video_fps = true
bool_default audio_processing_enable = false
bool_default audio_echo_cancellation = true
bool_default audio_auto_gain_control = true
bool_default audio_noise_suppression = true
bool_default audio_highpass_filter = true
bool_default audio_jitter_buffer_enable = false
bool_default audio_jitter_buffer_fast_accel = true
bool_default audio_jitter_buffer_enable_rtx_handling = false
bool_default audio_experimental_agc = false
bool_default audio_experimental_ns = false
bool_default video_stabilisation = false
bool_default video_enable_annotate_text = false
bool_default still_capture_enable = false
bool_default still_append_datatime = false

abbrev pub text_name : TextVar → Text
text_name video_roi = codes "video_roi"
text_name video_resolution_list_4_3 = codes "video_resolution_list_4_3"
text_name video_resolution_list_16_9 = codes "video_resolution_list_16_9"
text_name fixed_video_resolution = codes "fixed_video_resolution"
text_name video_exposure_mode = codes "video_exposure_mode"
text_name video_flicker_mode = codes "video_flicker_mode"
text_name video_awb_mode = codes "video_awb_mode"
text_name video_drc_mode = codes "video_drc_mode"
text_name video_annotate_text = codes "video_annotate_text"
text_name still_directory = codes "still_directory"
text_name still_file_prefix = codes "still_file_prefix"
text_name still_file_extension = codes "still_file_extension"

abbrev pub text_remote_access : TextVar → Bool
text_remote_access video_roi = false
text_remote_access video_resolution_list_4_3 = false
text_remote_access video_resolution_list_16_9 = false
text_remote_access fixed_video_resolution = false
text_remote_access video_exposure_mode = true
text_remote_access video_flicker_mode = true
text_remote_access video_awb_mode = true
text_remote_access video_drc_mode = true
text_remote_access video_annotate_text = true
text_remote_access still_directory = false
text_remote_access still_file_prefix = false
text_remote_access still_file_extension = false

abbrev pub text_default : TextVar → Text
text_default video_roi = codes "0,0,1.0,1.0"
text_default video_resolution_list_4_3 =
    codes "320x240,400x300,512x384,640x480,1024x768,1152x864,1296x972,1640x1232"
text_default video_resolution_list_16_9 =
    codes "384x216,512x288,640x360,768x432,896x504,1024x576,1152x648,1280x720,1408x864,1920x1080"
text_default fixed_video_resolution = codes "640x480"
text_default video_exposure_mode = codes "auto"
text_default video_flicker_mode = codes "auto"
text_default video_awb_mode = codes "auto"
text_default video_drc_mode = codes "off"
text_default video_annotate_text = []
text_default still_directory = codes "/opt/rws/still_captured"
text_default still_file_prefix = codes "still_capture"
text_default still_file_extension = codes "jpg"
