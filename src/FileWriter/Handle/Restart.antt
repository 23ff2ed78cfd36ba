-- ===== src/FileWriter/Handle/Restart.antt =====
-- The order of the steps of `FileWriterHandle::Open`: the thread starts before `writer_quit_` is
-- reset.
use rpi_webrtc_streamer.Base.{ℕ, ◌≡◌, Bool, true, false, some, arith, Text}
use rpi_webrtc_streamer.FileWriter.Buffer.{FileWriterBuffer}
use rpi_webrtc_streamer.FileWriter.Handle.{FileWriterHandle, writer_process, open_and_spawn, close}

module _ (disk : Text → Text → Bool) (is_folder : Text → Bool) (open_ok : Text → Bool)
    (date_string : Text) where
  abbrev reopened : Text → Text → Text → Bool → FileWriterHandle → Bool × FileWriterHandle
  reopened dirname prefix extension temporary h =
      open_and_spawn is_folder open_ok date_string dirname prefix extension temporary (close h)

  -- When a handle that has had a writer thread is closed and opened again, and the new thread takes
  -- its first round before `Open` goes on, that round ends the thread and writes nothing.
  pub reopened_thread_ends :
      (dirname prefix extension : Text) (temporary : Bool) (h : FileWriterHandle) (fuel : ℕ)
      (arrived : FileWriterBuffer → FileWriterBuffer)
      → h.has_thread ≡ true
      → let h' = (reopened dirname prefix extension temporary h).1 in
        writer_process disk fuel arrived h' ≡ some (false, h')
  unfolding open_and_spawn close writer_process
  reopened_thread_ends dirname prefix extension temporary h fuel arrived started = ground arith
