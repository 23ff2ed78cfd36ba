-- ===== src/FileWriter/Handle.antt =====
-- class FileWriterHandle of src/file_writer_handle.cc. The file system and the clock are outside the
-- program: `is_folder`, `date_string` and `open_ok` are what they answer at a call, `disk` says
-- whether `FileWrapper::Write` succeeds on a chunk when the file holds the bytes given first.
-- Every method that takes `writer_lock_` is one step.
pub mod Drain
pub mod Restart
pub mod Names
use rpi_webrtc_streamer.Base.{
  ℕ, zero, suc, ◌+◌, ◌*◌, ◌/◌, ◌%◌, Bool, true, false, not, ◌&&◌, ◌||◌, Option, none, some, List,
  [], ◌∷◌, ◌++◌, map, ◌==◌, if◌then◌else◌, length, int_mod, lt_int, Text, codes,
}
use mathlib.Core.Option
use rpi_webrtc_streamer.FileWriter.Buffer.{FileWriterBuffer, size, clear, read_front, write_back}

pub record FileWriterHandle : Type 0 where
  pub buffer : FileWriterBuffer
  pub is_open : Bool
  -- the bytes of the open file
  pub file : Text
  pub filename : Text
  pub file_size_limit : ℕ
  pub file_written : ℕ
  pub use_temporary_filename : Bool
  pub has_thread : Bool
  pub writer_quit : Bool
  pub event : Bool
  -- the calls of `utils::MoveFile`, the latest first
  pub moves : List (Text × Text)

abbrev pub file_writer_buffer_size : ℕ
file_writer_buffer_size = 1024 * 8

abbrev pub temporary_file_name_extension : Text
temporary_file_name_extension = codes ".saving"

-- The body of that loop in the mode that drops the bytes, before the rounds `next`.
pub discard_round :
    (FileWriterBuffer → Option FileWriterBuffer) → Text × FileWriterBuffer → Option FileWriterBuffer
discard_round next ([], b') = some b'
discard_round next (x ∷ xs, b') = next b'

-- `while (size_t read_size = buffer_->ReadFront(...)) { }`, on fuel
pub discard : ℕ → FileWriterBuffer → Option FileWriterBuffer
discard zero b = none
discard (suc fuel) b = discard_round (discard fuel) (read_front b file_writer_buffer_size)

-- `file_size_limit_ != 0 && file_written_ > file_size_limit_`
abbrev pub is_over_limit : FileWriterHandle → Bool
is_over_limit h = not (h.file_size_limit == 0) && lt_int h.file_size_limit h.file_written

-- What the writing loop does with a chunk that it has read.
pub write_chunk : FileWriterHandle → Text → FileWriterHandle
write_chunk h bytes = record h {
  file = h.file ++ bytes;
  file_written = (h.file_written + length bytes) % int_mod;
}

module _ (disk : Text → Text → Bool) where
  -- The body of the loop of `Write` on what `ReadFront` returned, before the rounds `next`.
  pub write_round :
      (FileWriterHandle → Option (Bool × FileWriterHandle))
      → FileWriterHandle
      → Text × FileWriterBuffer
      → Option (Bool × FileWriterHandle)
  unfolding write_chunk
  write_round next h ([], b') = some (true, record h { buffer = b' })
  write_round next h (x ∷ xs, b') =
      if disk h.file (x ∷ xs)
      then next (write_chunk (record h { buffer = b' }) (x ∷ xs))
      else some (false, record h { buffer = b' })

  pub write_loop : ℕ → FileWriterHandle → Option (Bool × FileWriterHandle)
  write_loop zero h = none
  write_loop (suc fuel) h =
      write_round (write_loop fuel) h (read_front h.buffer file_writer_buffer_size)

  pub write : ℕ → FileWriterHandle → Option (Bool × FileWriterHandle)
  write fuel h =
      if not h.is_open
      then some (false, h)
      else (if is_over_limit h
          then Option.map (λ b'. (true, record h { buffer = b' })) (discard fuel h.buffer)
          else write_loop fuel h)

  -- One round of the writer thread, `false` when the thread is to end. `Wait` ends at the event or
  -- at its timeout, and `arrived` is what the drain thread has put into the buffer meanwhile.
  pub writer_process :
      ℕ
      → (FileWriterBuffer → FileWriterBuffer)
      → FileWriterHandle
      → Option (Bool × FileWriterHandle)
  writer_process fuel arrived h =
      if not h.is_open || h.writer_quit
      then some (false, h)
      else (let h' : FileWriterHandle =
            if size h.buffer == 0
            then record h { buffer = arrived h.buffer; event = false }
            else h in
          if h'.is_open && not (size h'.buffer == 0)
          then Option.map (λ r. (true, r.1)) (write fuel h')
          else some (true, h'))

pub open_filename : Text → Text → Text → Text → Text
open_filename date_string dirname prefix extension =
    dirname ++ (codes "/" ++ (prefix ++ (codes "_" ++ (date_string ++ extension))))

-- `Open` up to and with the start of the writer thread, and what it does after that start.
module _ (is_folder : Text → Bool) (open_ok : Text → Bool) (date_string : Text) where
  unfoldable pub open_and_spawn :
      Text → Text → Text → Bool → FileWriterHandle → Bool × FileWriterHandle
  unfolding open_filename
  open_and_spawn dirname prefix extension use_temporary h =
      let filename = open_filename date_string dirname prefix extension in
      let path = if use_temporary then filename ++ temporary_file_name_extension else filename in
      if not (is_folder dirname)
      then (false, h)
      else (if not (open_ok path)
          then (false, record h { is_open = false; file = [] })
          else (true, record h { is_open = true; file = []; has_thread = true }))

  unfoldable pub finish_open : Text → Text → Text → ℕ → Bool → FileWriterHandle → FileWriterHandle
  unfolding open_filename
  finish_open dirname prefix extension limit use_temporary h = record h {
    writer_quit = false;
    filename = open_filename date_string dirname prefix extension;
    file_size_limit = limit;
    file_written = 0;
    use_temporary_filename = use_temporary;
  }

  -- `Open` when the new thread does not run before `Open` returns.
  unfoldable pub open_file :
      Text → Text → Text → ℕ → Bool → FileWriterHandle → Bool × FileWriterHandle
  open_file dirname prefix extension limit use_temporary h =
      let (ok, h') = open_and_spawn dirname prefix extension use_temporary h in
      if ok
      then (true, finish_open dirname prefix extension limit use_temporary h')
      else (false, h')

unfoldable pub close : FileWriterHandle → FileWriterHandle
close h = record h {
  is_open = false;
  moves =
      if h.is_open && h.use_temporary_filename
      then (h.filename ++ temporary_file_name_extension, h.filename) ∷ h.moves
      else h.moves;
  writer_quit = if h.has_thread then true else h.writer_quit;
  has_thread = false;
  filename = [];
  file_size_limit = 0;
  file_written = 0;
  use_temporary_filename = true;
}

-- `FileWriterHandle::WriteBack`, which also sets the event.
unfoldable pub handle_write_back : (ℕ → ℕ) → FileWriterHandle → Text → Option (ℕ × FileWriterHandle)
handle_write_back uninit h bytes =
    Option.map (λ r. (r.0, record h { buffer = r.1; event = true }))
      (write_back uninit h.buffer bytes)

unfoldable pub handle_clear : FileWriterHandle → FileWriterHandle
handle_clear h = record h { buffer = clear h.buffer }
