-- ===== src/Motion/Tests.antt =====
-- Runs of the motion detection, and its theorems at them.
use rpi_webrtc_streamer.Base.{
  Text, ◌*◌, ℕ, ◌^◌, ◌<◌, ◌≡◌, refl, ◌≢◌, true, false, Option, none, some, List, [], ◌∷◌, arith,
  ◌==◌, drop, codes,
}
use rpi_webrtc_streamer.Motion.Detection.{
  cleared, triggered, wait_clear, Detection, Call, clears, points, observe, observe_all,
}
use rpi_webrtc_streamer.Motion.Detection.Clearing.{ClearedBy, observe_ends, motion_lasts}
use rpi_webrtc_streamer.Motion.Vector.{
  RaspiMotionVector, Picture, triggered_report, cleared_report, analyse, analyse_all,
  imv_image_cell,
}
use rpi_webrtc_streamer.Motion.Vector.Reports.{
  IsConsistent, last_count, analyse_all-Follows, imv_image_cell-analyse,
}
use rpi_webrtc_streamer.Motion.DirLimit.{FileInfo, total_size, remove_files}
use rpi_webrtc_streamer.Motion.DirLimit.Removal.{sum, Trims, remove_files-Trims, remove_files_above}

-- The moving average of one sample.
abbrev latest : List ℕ → Option ℕ
latest [] = none
latest (x ∷ xs) = some x

abbrev seen : Detection
seen = record {
  motion_state = triggered;
  last_average_print_timestamp = 0;
  clear_wait_timestamp = 0;
  clear_wait_period = 5000;
  active_percent_clear_threshold = 5;
  active_percent_trigger_threshold = 10;
  samples = [];
}

abbrev waiting : Detection
waiting = record seen { motion_state = wait_clear; clear_wait_timestamp = 2000 }

abbrev calls : List Call
calls = clears 2000 7 ∷ points 6000 100 1 ∷ []

ends_after_the_period :
    (observe_all latest (clears 2000 7 ∷ points 7001 100 1 ∷ []) seen).motion_state ≡ cleared
unfolding observe_all observe
ends_after_the_period = refl

motion_lasts_example : (observe_all latest calls seen).motion_state ≢ cleared
motion_lasts_example = motion_lasts latest 1000 calls seen refl (omega arith) (omega arith)

observe_ends_example : ClearedBy latest (points 7001 100 1) waiting
unfolding observe
observe_ends_example = observe_ends latest (points 7001 100 1) waiting (λ e. cc) refl

abbrev files : List FileInfo
files =
    record { filename = codes "a"; size = 5 }
    ∷ record { filename = codes "b"; size = 3 }
    ∷ record { filename = codes "c"; size = 4 }
    ∷ []

-- size_t of the documented builds.
abbrev arm_size_mod : ℕ
arm_size_mod = 2 ^ 32

one_file_goes : (remove_files arm_size_mod 6 12 files).1 ≡ drop 1 files
unfolding remove_files
one_file_goes = refl

-- 7.5 gigabytes in files, with the default limit of 4000 megabytes: the total wraps around, and
-- nothing is deleted.
abbrev large_file : Text → FileInfo
large_file name = record { filename = name; size = 1500000000 }

abbrev large_files : List FileInfo
large_files =
    large_file (codes "a")
    ∷ large_file (codes "b")
    ∷ large_file (codes "c")
    ∷ large_file (codes "d")
    ∷ large_file (codes "e")
    ∷ []

total_wraps : total_size arm_size_mod large_files < 4000 * 1000000
unfolding total_size
total_wraps = omega arith

nothing_goes :
    remove_files arm_size_mod (4000 * 1000000) (total_size arm_size_mod large_files) large_files
    ≡ ([], large_files)
unfolding remove_files total_size
nothing_goes = refl

remove_files-Trims_example :
    let (deleted, kept) = remove_files arm_size_mod 6 (sum files) files in
    Trims 6 files deleted kept
remove_files-Trims_example = remove_files-Trims arm_size_mod 6 files (omega arith)

remove_files_above_example : 6 < sum (remove_files arm_size_mod 6 (sum files) files).1
remove_files_above_example = remove_files_above arm_size_mod 6 files (omega arith) (omega arith)

abbrev picture_with : ℕ → Picture
picture_with n = record {
  moves = λ c. c == 1;
  motion_active = n;
  new_blob_active_count = n;
  new_blob_active_updates = n;
}

abbrev three_pictures : List Picture
three_pictures = picture_with 1 ∷ picture_with 2 ∷ picture_with 0 ∷ []

abbrev still : RaspiMotionVector
still = record {
  mvx = 2;
  mvy = 1;
  blob_enable = true;
  has_blob_observer = true;
  has_imv_observer = false;
  candidate = λ c. 0;
  update_counter = 0;
  initial_coolingdown = 1;
  enable_observer_callback = false;
  blob_active_count = 0;
  blob_active_updates = 0;
}

-- The first picture falls into the initial period.
three_reports : (analyse_all three_pictures still).0 ≡ triggered_report 2 ∷ cleared_report 2 ∷ []
unfolding analyse_all
three_reports = refl

analyse_all-Follows_example :
    IsConsistent 0 (analyse_all three_pictures still).0
    × (last_count 0 (analyse_all three_pictures still).0
        ≡ (analyse_all three_pictures still).1.blob_active_count)
analyse_all-Follows_example = analyse_all-Follows three_pictures still

imv_image_cell-analyse_example :
    (imv_image_cell (analyse (picture_with 1) still).1 1 ≡ 255)
    × ((analyse (picture_with 1) still).1.candidate 1 < 2 ^ 32)
imv_image_cell-analyse_example = imv_image_cell-analyse (picture_with 1) still 1 (omega arith)
