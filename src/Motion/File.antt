-- ===== src/Motion/File.antt =====
-- RaspiMotionFile of src/raspi_motionfile.cc: the two file writers of a motion. What the file system
-- and the clock answer to `Open` is an argument, as it is there; `none` is a text that
-- FileWriterHandle::WriteBack copies out of bounds.
use rpi_webrtc_streamer.Base.{
  ℕ, Bool, true, false, not, Option, none, some, ◌==◌, if◌then◌else◌, length, Text, codes,
}
use rpi_webrtc_streamer.FileWriter.Handle.{
  FileWriterHandle, open_file, close, handle_write_back, handle_clear,
}

abbrev pub video_file_extension : Text
video_file_extension = codes ".h264"

abbrev pub imv_file_extension : Text
imv_file_extension = codes ".imv"

pub record RaspiMotionFile : Type 0 where
  pub base_path : Text
  pub prefix : Text
  pub writer_active : Bool
  pub frame_writer_handle : FileWriterHandle
  pub imv_writer_handle : FileWriterHandle
  pub frame_file_size_limit : ℕ
  -- GetSaveImvFile of the motion configuration
  pub save_imv_file : Bool

-- The result of a queuing: the number of bytes, or nothing when not all were taken.
abbrev pub all_written : ℕ → Text → Option ℕ
all_written written data_ = if written == length data_ then some written else none

-- The buffers of the files that are not open start again at a keyframe.
unfoldable pub clear_closed : FileWriterHandle → FileWriterHandle
clear_closed h = if not h.is_open then handle_clear h else h

abbrev pub at_keyframe : Bool → RaspiMotionFile → RaspiMotionFile
at_keyframe is_keyframe f =
    if is_keyframe
    then record f {
      frame_writer_handle = clear_closed f.frame_writer_handle;
      imv_writer_handle = clear_closed f.imv_writer_handle;
    }
    else f

unfoldable pub frame_queuing :
    (ℕ → ℕ) → Text → Bool → RaspiMotionFile → Option (Option ℕ × RaspiMotionFile)
frame_queuing uninit data_ is_keyframe f =
    let f' = at_keyframe is_keyframe f in
    elim (handle_write_back uninit f'.frame_writer_handle data_) [
      | none ↦ none
      | some (written, h) ↦ some (all_written written data_, record f' { frame_writer_handle = h })
    ]

unfoldable pub imv_queuing : (ℕ → ℕ) → Text → RaspiMotionFile → Option (Option ℕ × RaspiMotionFile)
imv_queuing uninit data_ f = elim (handle_write_back uninit f.imv_writer_handle data_) [
  | none ↦ none
  | some (written, h) ↦ some (all_written written data_, record f { imv_writer_handle = h })
]

module _ (is_folder : Text → Bool) (open_ok : Text → Bool) (date_string : Text) where
  -- When only the second Open fails, the first file stays open, and the writer is not active.
  unfoldable pub start_writer : RaspiMotionFile → Bool × RaspiMotionFile
  start_writer f =
      if not f.writer_active
      then (let (ok, frame_writer) =
            open_file is_folder open_ok date_string f.base_path f.prefix video_file_extension
              f.frame_file_size_limit true f.frame_writer_handle in
          let f₁ : RaspiMotionFile = record f { frame_writer_handle = frame_writer } in
          let (imv_ok, imv_writer) =
            open_file is_folder open_ok date_string f.base_path f.prefix imv_file_extension 0 true
              f.imv_writer_handle in
          let f₂ : RaspiMotionFile = record f₁ { imv_writer_handle = imv_writer } in
          if not ok
          then (false, f₁)
          else (if f.save_imv_file
              then (if not imv_ok then (false, f₂) else (true, record f₂ { writer_active = true }))
              else (true, record f₁ { writer_active = true })))
      else (false, f)

unfoldable pub stop_writer : RaspiMotionFile → Bool × RaspiMotionFile
stop_writer f =
    if f.writer_active
    then (
      true,
      record f {
        writer_active = false;
        frame_writer_handle = close f.frame_writer_handle;
        imv_writer_handle = close f.imv_writer_handle;
      },
    )
    else (false, f)
