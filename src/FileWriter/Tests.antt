-- ===== src/FileWriter/Tests.antt =====
-- Runs of file_writer_handle.cc on small buffers, and its theorems at them.
use rpi_webrtc_streamer.Base.{
  ℕ, ◌+◌, ◌<◌, ◌≡◌, refl, ◌↔◌, Bool, true, false, none, some, [], ◌∷◌, ◌++◌, arith, length, take,
  drop, copy_in, Text, codes,
}
use rpi_webrtc_streamer.FileWriter.Buffer.{
  FileWriterBuffer, quarter, size, read_front, resize, append_bytes, write_back,
}
use rpi_webrtc_streamer.FileWriter.Buffer.Fifo.{
  contents, IsValid, read_front_takes, write_back_appends, write_back_overflows,
}
use rpi_webrtc_streamer.FileWriter.Handle.{
  FileWriterHandle, temporary_file_name_extension, write, writer_process, open_filename,
  open_and_spawn, open_file, close,
}
use rpi_webrtc_streamer.FileWriter.Handle.Drain.{Drained, write-Drained, write_over_limit}
use rpi_webrtc_streamer.FileWriter.Handle.Restart.{reopened_thread_ends}
use rpi_webrtc_streamer.FileWriter.Handle.Names.{rounds, open_rounds-close}

abbrev zeros : ℕ → ℕ
zeros i = 0

-- Eight bytes, of which 5, 6 and 7 are waiting.
abbrev waiting : FileWriterBuffer
waiting = record {
  buffer_size = 8;
  offset_start = 1;
  offset_end = 4;
  buffer = copy_in zeros 0 (4 ∷ 5 ∷ 6 ∷ 7 ∷ []);
}

waiting-IsValid : IsValid waiting
waiting-IsValid = record { ordered = omega arith; inside = omega arith; small = omega arith }

-- A write that the allocation cannot take, even a quarter larger.
abbrev too_long : Text
too_long = 1 ∷ 2 ∷ 3 ∷ 4 ∷ 5 ∷ 6 ∷ 7 ∷ []

too_long_is_undefined : write_back zeros waiting too_long ≡ none
unfolding write_back append_bytes resize size
too_long_is_undefined = refl

read_front_takes_example :
    ((read_front waiting 2).0 ≡ take 2 (contents waiting))
    × (contents (read_front waiting 2).1 ≡ drop 2 (contents waiting))
    × IsValid (read_front waiting 2).1
read_front_takes_example = read_front_takes waiting 2 waiting-IsValid

write_back_appends_example :
    (b' : FileWriterBuffer) × (write_back zeros waiting (1 ∷ 2 ∷ 3 ∷ 4 ∷ 5 ∷ 6 ∷ []) ≡ some (6, b'))
    × (contents b' ≡ contents waiting ++ (1 ∷ 2 ∷ 3 ∷ 4 ∷ 5 ∷ 6 ∷ []))
    × IsValid b'
write_back_appends_example =
    write_back_appends zeros waiting (1 ∷ 2 ∷ 3 ∷ 4 ∷ 5 ∷ 6 ∷ []) waiting-IsValid (omega arith)
      (omega arith)

write_back_overflows_example :
    (write_back zeros waiting too_long ≡ none)
    ↔ (waiting.buffer_size + quarter waiting.buffer_size < waiting.offset_end + length too_long)
write_back_overflows_example =
    write_back_overflows zeros waiting too_long waiting-IsValid (omega arith)

-- A disk that takes every chunk.
abbrev good_disk : Text → Text → Bool
good_disk file chunk = true

abbrev handle : FileWriterHandle
handle = record {
  buffer = waiting;
  is_open = true;
  file = 9 ∷ [];
  filename = codes "motion.h264";
  file_size_limit = 100;
  file_written = 1;
  use_temporary_filename = true;
  has_thread = true;
  writer_quit = false;
  event = false;
  moves = [];
}

abbrev full_handle : FileWriterHandle
full_handle = record handle { file_written = 101 }

write-Drained_example :
    (ok : Bool) × (h' : FileWriterHandle) × (write good_disk 4 handle ≡ some (ok, h'))
    × Drained good_disk handle ok h'
write-Drained_example = write-Drained good_disk 4 handle waiting-IsValid (omega arith) refl refl

write_over_limit_example :
    (b' : FileWriterBuffer) × (write good_disk 4 full_handle
      ≡ some (true, record full_handle { buffer = b' }))
    × (contents b' ≡ [])
    × IsValid b'
write_over_limit_example =
    write_over_limit good_disk 4 full_handle waiting-IsValid (omega arith) refl refl

abbrev any_path : Text → Bool
any_path path = true

abbrev reopened : FileWriterHandle
reopened =
    (open_and_spawn any_path any_path (codes "now") (codes "dir") (codes "motion") (codes ".h264")
      true (close handle)).1

reopened_thread_ends_example : writer_process good_disk 4 (λ b. b) reopened ≡ some (false, reopened)
reopened_thread_ends_example =
    reopened_thread_ends good_disk any_path any_path (codes "now") (codes "dir") (codes "motion")
      (codes ".h264") true handle 4 (λ b. b) refl

abbrev opened : FileWriterHandle
opened =
    (open_file any_path any_path (codes "now") (codes "dir") (codes "motion") (codes ".h264") 0 true
      (close handle)).1

abbrev final_name : Text
final_name = open_filename (codes "now") (codes "dir") (codes "motion") (codes ".h264")

open_succeeds :
    open_file any_path any_path
      (codes "now")
      (codes "dir")
      (codes "motion")
      (codes ".h264")
      0
      true
      (close handle)
    ≡ (true, opened)
unfolding open_file open_and_spawn
open_succeeds = refl

open_rounds-close_example :
    ((close opened).moves
      ≡ (final_name ++ temporary_file_name_extension, final_name) ∷ (close handle).moves)
    × ((close opened).is_open ≡ false)
unfolding rounds
open_rounds-close_example =
    open_rounds-close good_disk any_path any_path (codes "now") (codes "dir") (codes "motion")
      (codes ".h264") 0 (close handle) opened opened [] open_succeeds refl
