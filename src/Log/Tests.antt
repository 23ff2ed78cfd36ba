-- ===== src/Log/Tests.antt =====
-- Runs of the log stream with files of four bytes.
use rpi_webrtc_streamer.Base.{
  ◌≡◌, refl, true, false, none, some, [], ◌∷◌, arith, ◌==◌, if◌then◌else◌,
}
use rpi_webrtc_streamer.Log.Rotating.{Disk, Answers, LogRotatingStream, open_stream, write_stream}
use rpi_webrtc_streamer.Log.Rotating.Shift.{AllOk}
use rpi_webrtc_streamer.Log.Rotating.Files.{IsLog, open_stream-IsLog, write_stream-IsLog}

abbrev good : Answers
good = record {
  delete_ok = true;
  move_ok = λ i. true;
  open_ok = true;
  write_ok = true;
  left_bytes = 0;
  flush_ok = true;
}

good-AllOk : AllOk good
good-AllOk = record {
  deletes = refl;
  moves = λ i. refl;
  opens = refl;
  writes = refl;
  flushes = refl;
}

abbrev two_files : Disk
two_files i = if i == 0 then some (1 ∷ []) else (if i == 1 then some (2 ∷ 3 ∷ []) else none)

abbrev closed_stream : LogRotatingStream
closed_stream = record {
  disk = two_files;
  is_open = false;
  max_file_size = 4;
  current_bytes_written = 0;
  rotation_index = 1;
  disable_buffering = true;
}

abbrev opened_stream : LogRotatingStream
opened_stream = record closed_stream { is_open = true; current_bytes_written = 1 }

opened_stream-IsLog : IsLog (1 ∷ [], some (2 ∷ 3 ∷ []) ∷ []) opened_stream
opened_stream-IsLog = record {
  opened = refl;
  newest = refl;
  older = refl;
  written = refl;
  below = omega arith;
  bounded = (omega arith, tt);
}

write_stream-IsLog_example :
    ((write_stream good (7 ∷ 8 ∷ 9 ∷ 10 ∷ []) opened_stream).0 ≡ some 3)
    × IsLog
        ([], some (1 ∷ 7 ∷ 8 ∷ 9 ∷ []) ∷ [])
        (write_stream good (7 ∷ 8 ∷ 9 ∷ 10 ∷ []) opened_stream).1
write_stream-IsLog_example =
    write_stream-IsLog good opened_stream (1 ∷ []) (some (2 ∷ 3 ∷ []) ∷ []) (7 ∷ 8 ∷ 9 ∷ 10 ∷ [])
      good-AllOk opened_stream-IsLog (omega arith)

open_stream-IsLog_example :
    ((open_stream good closed_stream).0 ≡ true)
    × IsLog ([], some (1 ∷ []) ∷ []) (open_stream good closed_stream).1
open_stream-IsLog_example =
    open_stream-IsLog good closed_stream (some (1 ∷ []) ∷ some (2 ∷ 3 ∷ []) ∷ []) good-AllOk
      (λ e. refl) (omega arith) refl (omega arith, (omega arith, tt))
