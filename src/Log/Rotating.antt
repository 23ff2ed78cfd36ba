-- ===== src/Log/Rotating.antt =====
-- LogRotatingStream of src/log_rotating_stream.cc. A file is named by its index in file_names_, since
-- the constructor gives every index a name of its own; the disk is what the files hold, written bytes
-- included that are still in a buffer. current_file_index_ is 0 always. A result of Write is the
-- number of bytes for SR_SUCCESS, and `none` for SR_ERROR.
pub mod Shift
pub mod Files
use rpi_webrtc_streamer.Base.{
  ℕ, zero, suc, ◌+◌, min, Bool, true, false, not, ◌&&◌, Option, none, some, [], ◌++◌, leb,
  if◌then◌else◌, length, take, update, add_size, sub_size, Text,
}

abbrev pub Disk : Type 0
Disk = ℕ → Option Text

-- What the operating system answers to the calls of an operation. A write that fails may leave
-- `left_bytes` of the bytes in the file.
pub record Answers : Type 0 where
  pub delete_ok : Bool
  pub move_ok : ℕ → Bool
  pub open_ok : Bool
  pub write_ok : Bool
  pub left_bytes : ℕ
  pub flush_ok : Bool

pub record LogRotatingStream : Type 0 where
  pub disk : Disk
  pub is_open : Bool
  pub max_file_size : ℕ
  pub current_bytes_written : ℕ
  pub rotation_index : ℕ
  pub disable_buffering : Bool

-- utils::IsFile
abbrev pub is_file : Disk → ℕ → Bool
is_file disk i = elim (disk i) [ none ↦ false | some t ↦ true ]

-- utils::MoveFile to the next index
abbrev pub move_file : Disk → ℕ → Disk
move_file disk i = update (update disk i none) (suc i) (disk i)

abbrev pub append_file : Disk → ℕ → Text → Disk
append_file disk i bytes =
    update disk i (elim (disk i) [ none ↦ none | some t ↦ some (t ++ bytes) ])

unfoldable pub close_current_file : LogRotatingStream → LogRotatingStream
close_current_file s =
    if s.is_open then record s { is_open = false; current_bytes_written = 0 } else s

unfoldable pub open_current_file : Answers → LogRotatingStream → Bool × LogRotatingStream
unfolding close_current_file
open_current_file w s =
    let closed = close_current_file s in
    if w.open_ok
    then (true, record closed { disk = update closed.disk 0 (some []); is_open = true })
    else (false, closed)

-- The loop of RotateFiles, from the index `i` down.
unfoldable pub move_files : Answers → ℕ → Disk → Disk
move_files w zero disk = disk
move_files w (suc i) disk =
    move_files w i (if is_file disk i && w.move_ok i then move_file disk i else disk)

unfoldable pub delete_oldest : Answers → ℕ → Disk → Disk
delete_oldest w i disk = if is_file disk i && w.delete_ok then update disk i none else disk

unfoldable pub rotate_files : Answers → LogRotatingStream → LogRotatingStream
unfolding close_current_file open_current_file move_files delete_oldest
rotate_files w s =
    let closed = close_current_file s in
    let last = closed.rotation_index in
    (open_current_file w
      (record closed { disk = move_files w last (delete_oldest w last closed.disk) })).1

unfoldable pub open_stream : Answers → LogRotatingStream → Bool × LogRotatingStream
unfolding rotate_files
open_stream w s = let rotated = rotate_files w s in (rotated.is_open, rotated)

unfoldable pub flush_stream : Answers → LogRotatingStream → Bool
flush_stream w s = s.is_open && w.flush_ok

abbrev pub disable_stream_buffering : LogRotatingStream → Bool × LogRotatingStream
disable_stream_buffering s = (true, record s { disable_buffering = true })

unfoldable pub write_stream : Answers → Text → LogRotatingStream → Option ℕ × LogRotatingStream
unfolding rotate_files
write_stream w bytes s =
    let write_length = min (length bytes) (sub_size s.max_file_size s.current_bytes_written) in
    let s₁ = record s { disk = append_file s.disk 0 (take write_length bytes) } in
    let s₂ = record s₁ { current_bytes_written = add_size s.current_bytes_written write_length } in
    if not s.is_open
    then (none, s)
    else (if not w.write_ok
        then (
          none,
          record s { disk = append_file s.disk 0 (take (min w.left_bytes write_length) bytes) },
        )
        else (if s.disable_buffering && not w.flush_ok then (none, s₁) else (
          some write_length,
          if leb s₂.max_file_size s₂.current_bytes_written then rotate_files w s₂ else s₂,
        )))
