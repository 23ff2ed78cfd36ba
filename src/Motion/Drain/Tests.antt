-- ===== src/Motion/Drain/Tests.antt =====
-- Two rounds of the drain thread: a motion vector during a motion, which starts the writer, and a
-- round without a buffer.
use rpi_webrtc_streamer.Base.{
  ℕ, ◌≡◌, refl, Bool, true, false, Option, none, some, List, [], ◌∷◌, codes, copy_in,
}
use rpi_webrtc_streamer.FileWriter.Buffer.{write_back, append_bytes, size}
use rpi_webrtc_streamer.FileWriter.Handle.{
  FileWriterHandle, open_file, open_and_spawn, handle_write_back,
}
use rpi_webrtc_streamer.Motion.Detection.{triggered, is_cleared, observe_all}
use rpi_webrtc_streamer.Motion.Vector.{analyse}
use rpi_webrtc_streamer.Motion.File.{imv_queuing, start_writer, stop_writer}
use rpi_webrtc_streamer.Motion.Drain.{
  RaspiMotion, Round, switch_writer, analyse_picture, drain_process, drain_rounds,
}
use rpi_webrtc_streamer.Motion.Drain.Recording.{drain_rounds-IsRecording}

abbrev no_average : List ℕ → Option ℕ
no_average samples = none

abbrev closed_handle : FileWriterHandle
closed_handle = record {
  buffer = record { buffer_size = 8; offset_start = 0; offset_end = 0; buffer = λ p. 0 };
  is_open = false;
  file = [];
  filename = [];
  file_size_limit = 0;
  file_written = 0;
  use_temporary_filename = true;
  has_thread = false;
  writer_quit = false;
  event = false;
  moves = [];
}

abbrev idle_motion : RaspiMotion
idle_motion = record {
  motion_file = record {
    base_path = codes "dir";
    prefix = codes "motion";
    writer_active = false;
    frame_writer_handle = closed_handle;
    imv_writer_handle = closed_handle;
    frame_file_size_limit = 1024;
    save_imv_file = false;
  };
  detection = record {
    motion_state = triggered;
    last_average_print_timestamp = 0;
    clear_wait_timestamp = 0;
    clear_wait_period = 5000;
    active_percent_clear_threshold = 5;
    active_percent_trigger_threshold = 10;
    samples = [];
  };
  motion_analysis = record {
    mvx = 2;
    mvy = 1;
    blob_enable = true;
    has_blob_observer = true;
    has_imv_observer = true;
    candidate = λ c. 0;
    update_counter = 0;
    initial_coolingdown = 1;
    enable_observer_callback = false;
    blob_active_count = 0;
    blob_active_updates = 0;
  };
  motion_drain_quit = false;
  posted_tasks = 0;
}

abbrev vector_round : Round
vector_round = record {
  buffer = some (record { temporary = false; flags = 128; content = 7 ∷ []; capacity = 8 });
  picture = record {
    moves = λ c. false;
    motion_active = 0;
    new_blob_active_count = 0;
    new_blob_active_updates = 0;
  };
  now = 1000;
  is_folder = λ path. true;
  open_ok = λ path. true;
  date_string = codes "now";
  uninit = λ p. 0;
}

abbrev empty_round : Round
empty_round = record vector_round { buffer = none }

abbrev two_rounds : List (Bool × Round)
two_rounds = (false, vector_round) ∷ (false, empty_round) ∷ []

abbrev recording_motion : RaspiMotion
recording_motion = switch_writer vector_round (
    analyse_picture no_average vector_round (record idle_motion {
      motion_file = record idle_motion.motion_file {
        imv_writer_handle = record closed_handle {
          buffer = record {
            buffer_size = 8;
            offset_start = 0;
            offset_end = 1;
            buffer = copy_in (λ p. 0) 0 (7 ∷ []);
          };
          event = true;
        };
      };
    }))

recording_motion-active : recording_motion.motion_file.writer_active ≡ true
unfolding switch_writer analyse_picture start_writer open_file open_and_spawn observe_all analyse
recording_motion-active = refl

rounds_reach : drain_rounds no_average two_rounds idle_motion ≡ some recording_motion
unfolding drain_rounds imv_queuing handle_write_back write_back append_bytes size observe_all
    analyse
rounds_reach = refl

drain_rounds-IsRecording_example :
    (recording_motion.motion_file.frame_writer_handle.is_open ≡ true)
    × (is_cleared recording_motion.detection.motion_state ≡ false)
    × (drain_process no_average empty_round (record recording_motion { motion_drain_quit = true })
        ≡ some (
          false,
          record recording_motion {
            motion_drain_quit = true;
            motion_file = (stop_writer recording_motion.motion_file).1;
          },
        ))
    × ((stop_writer recording_motion.motion_file).1.frame_writer_handle.is_open ≡ false)
drain_rounds-IsRecording_example =
    drain_rounds-IsRecording no_average two_rounds empty_round idle_motion recording_motion refl
      rounds_reach recording_motion-active
