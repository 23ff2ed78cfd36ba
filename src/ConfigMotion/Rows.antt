-- ===== src/ConfigMotion/Rows.antt =====
-- The rows of src/def/config_motion.def: the motion settings, their names in the option file and their
-- defaults. There is one float, blob_cancel_threshold.
use rpi_webrtc_streamer.Base.{ℕ, Bool, true, false, List, [], ◌∷◌, Text, codes}

pub data MotionInt : Type 0 where
  motion_width : MotionInt
  motion_height : MotionInt
  motion_fps : MotionInt
  motion_bitrate : MotionInt
  motion_clear_percent : MotionInt
  motion_clear_wait_period : MotionInt
  motion_file_size_limit : MotionInt
  motion_annotate_text_size : MotionInt
  blob_tracking_threshold : MotionInt
  motion_file_total_size_limit : MotionInt

pub data MotionBool : Type 0 where
  motion_detection_enable : MotionBool
  motion_save_imv_file : MotionBool
  motion_enable_annotate_text : MotionBool

pub data MotionText : Type 0 where
  motion_directory : MotionText
  motion_file_prefix : MotionText
  motion_annotate_text : MotionText

pub data MotionRow : Type 0 where
  motion_cr_i : MotionInt → MotionRow
  motion_cr_b : MotionBool → MotionRow
  motion_cr : MotionText → MotionRow
  motion_cr_f : MotionRow

abbrev pub motion_int_name : MotionInt → Text
motion_int_name motion_width = codes "motion_width"
motion_int_name motion_height = codes "motion_height"
motion_int_name motion_fps = codes "motion_fps"
motion_int_name motion_bitrate = codes "motion_bitrate"
motion_int_name motion_clear_percent = codes "motion_clear_percent"
motion_int_name motion_clear_wait_period = codes "motion_clear_wait_period"
motion_int_name motion_file_size_limit = codes "motion_file_size_limit"
motion_int_name motion_annotate_text_size = codes "motion_annotate_text_size"
motion_int_name blob_tracking_threshold = codes "blob_tracking_threshold"
motion_int_name motion_file_total_size_limit = codes "motion_file_total_size_limit"

abbrev pub motion_int_default : MotionInt → ℕ
motion_int_default motion_width = 1024
motion_int_default motion_height = 768
motion_int_default motion_fps = 30
motion_int_default motion_bitrate = 3500
motion_int_default motion_clear_percent = 5
motion_int_default motion_clear_wait_period = 5000
motion_int_default motion_file_size_limit = 6000
motion_int_default motion_annotate_text_size = 32
motion_int_default blob_tracking_threshold = 15
motion_int_default motion_file_total_size_limit = 4000

abbrev pub motion_int_index : MotionInt → ℕ
motion_int_index motion_width = 0
motion_int_index motion_height = 1
motion_int_index motion_fps = 2
motion_int_index motion_bitrate = 3
motion_int_index motion_clear_percent = 4
motion_int_index motion_clear_wait_period = 5
motion_int_index motion_file_size_limit = 6
motion_int_index motion_annotate_text_size = 7
motion_int_index blob_tracking_threshold = 8
motion_int_index motion_file_total_size_limit = 9

abbrev pub motion_bool_name : MotionBool → Text
motion_bool_name motion_detection_enable = codes "motion_detection_enable"
motion_bool_name motion_save_imv_file = codes "motion_save_imv_file"
motion_bool_name motion_enable_annotate_text = codes "motion_enable_annotate_text"

abbrev pub motion_bool_default : MotionBool → Bool
motion_bool_default motion_detection_enable = false
motion_bool_default motion_save_imv_file = false
motion_bool_default motion_enable_annotate_text = true

abbrev pub motion_bool_index : MotionBool → ℕ
motion_bool_index motion_detection_enable = 0
motion_bool_index motion_save_imv_file = 1
motion_bool_index motion_enable_annotate_text = 2

abbrev pub motion_text_name : MotionText → Text
motion_text_name motion_directory = codes "motion_directory"
motion_text_name motion_file_prefix = codes "motion_file_prefix"
motion_text_name motion_annotate_text = codes "motion_annotate_text"

abbrev pub motion_text_default : MotionText → Text
motion_text_default motion_directory = codes "/opt/rws/motion_captured"
motion_text_default motion_file_prefix = codes "motion"
motion_text_default motion_annotate_text = []

abbrev pub motion_text_index : MotionText → ℕ
motion_text_index motion_directory = 0
motion_text_index motion_file_prefix = 1
motion_text_index motion_annotate_text = 2

abbrev pub blob_cancel_threshold_name : Text
blob_cancel_threshold_name = codes "blob_cancel_threshold"

abbrev pub motion_config_row_list : List MotionRow
motion_config_row_list =
    motion_cr_b motion_detection_enable
    ∷ motion_cr_i motion_width
    ∷ motion_cr_i motion_height
    ∷ motion_cr_i motion_fps
    ∷ motion_cr_i motion_bitrate
    ∷ motion_cr_i motion_clear_percent
    ∷ motion_cr_i motion_clear_wait_period
    ∷ motion_cr motion_directory
    ∷ motion_cr motion_file_prefix
    ∷ motion_cr_i motion_file_size_limit
    ∷ motion_cr_b motion_save_imv_file
    ∷ motion_cr_b motion_enable_annotate_text
    ∷ motion_cr motion_annotate_text
    ∷ motion_cr_i motion_annotate_text_size
    ∷ motion_cr_f
    ∷ motion_cr_i blob_tracking_threshold
    ∷ motion_cr_i motion_file_total_size_limit
    ∷ []
