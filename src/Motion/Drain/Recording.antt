-- ===== src/Motion/Drain/Recording.antt =====
-- When a motion is recorded.
use rpi_webrtc_streamer.Base.{
  ℕ, suc, ◌≡◌, refl, sym, subst, ◌∙◌, Bool, true, false, not, ◌&&◌, Option, none, some, List, [],
  ◌∷◌, arith, ltb, if◌then◌else◌, if_cases, if_split, option_cases, option_split, length, Text,
}
use rpi_webrtc_streamer.FileWriter.Handle.{
  FileWriterHandle, open_file, open_and_spawn, finish_open, close, handle_write_back, handle_clear,
}
use rpi_webrtc_streamer.FrameQueue.{FrameBuffer, is_key_frame, is_motion_vector, is_frame_end}
use rpi_webrtc_streamer.Motion.Detection.{MotionState, is_cleared, is_triggered}
use rpi_webrtc_streamer.Motion.File.{
  RaspiMotionFile, clear_closed, frame_queuing, imv_queuing, start_writer, stop_writer,
  video_file_extension,
}
use rpi_webrtc_streamer.Motion.Drain.{
  RaspiMotion, Round, switch_writer, analyse_picture, drain_buffer, drain_process, drain_rounds,
}

-- While the writer is active, its file is open.
abbrev pub IsOpen : RaspiMotionFile → Type 0
IsOpen f = f.writer_active ≡ true → f.frame_writer_handle.is_open ≡ true

abbrev pub IsRecording : RaspiMotion → Type 0
IsRecording s =
    s.motion_file.writer_active ≡ true
    → (s.motion_file.frame_writer_handle.is_open ≡ true)
      × (is_cleared s.detection.motion_state ≡ false)

-- The two that FrameQueuing and ImvQueuing keep.
abbrev Same : RaspiMotionFile → RaspiMotionFile → Type 0
Same f g =
    (g.writer_active ≡ f.writer_active)
    × (g.frame_writer_handle.is_open ≡ f.frame_writer_handle.is_open)

frame_queuing-Same :
    (uninit : ℕ → ℕ) (data_ : Text) (key : Bool) (f : RaspiMotionFile) (written : Option ℕ)
    (g : RaspiMotionFile)
    → frame_queuing uninit data_ key f ≡ some (written, g)
    → Same f g
unfolding frame_queuing handle_write_back handle_clear clear_closed
frame_queuing-Same uninit data_ key f written g e = (ground (arith, e), ground (arith, e))

imv_queuing-Same :
    (uninit : ℕ → ℕ) (data_ : Text) (f : RaspiMotionFile) (written : Option ℕ) (g : RaspiMotionFile)
    → imv_queuing uninit data_ f ≡ some (written, g)
    → Same f g
unfolding imv_queuing handle_write_back
imv_queuing-Same uninit data_ f written g e = (ground (arith, e), ground (arith, e))

module _ (is_folder : Text → Bool) (open_ok : Text → Bool) (date_string : Text) where
  open_file-is_open :
      (dirname prefix extension : Text) (limit : ℕ) (temporary : Bool) (h : FileWriterHandle)
      → (open_file is_folder open_ok date_string dirname prefix extension limit temporary h).0
        ≡ true
      → (open_file is_folder open_ok date_string dirname prefix extension limit temporary
          h).1.is_open
        ≡ true
  unfolding open_file open_and_spawn finish_open
  open_file-is_open dirname prefix extension limit temporary h e = ground (arith, e)

  start_writer-IsOpen :
      (f : RaspiMotionFile)
      → f.writer_active ≡ false
      → IsOpen (start_writer is_folder open_ok date_string f).1
  unfolding start_writer
  start_writer-IsOpen f off on = ground (
    arith,
    off,
    on,
    open_file-is_open f.base_path f.prefix video_file_extension f.frame_file_size_limit true
        f.frame_writer_handle,
  )

stop_writer-off : (f : RaspiMotionFile) → (stop_writer f).1.writer_active ≡ false
unfolding stop_writer
stop_writer-off f = ground arith

triggered-not_cleared : (m : MotionState) → is_triggered m ≡ true → is_cleared m ≡ false
triggered-not_cleared m e = ground (arith, e)

switch_writer-IsRecording :
    (r : Round) (s : RaspiMotion) → IsOpen s.motion_file → IsRecording (switch_writer r s)
unfolding switch_writer stop_writer
switch_writer-IsRecording r s opened =
    if_split IsRecording (is_cleared s.detection.motion_state && s.motion_file.writer_active)
      (λ e. stopped)
      λ e.
        if_split IsRecording
          (is_triggered s.detection.motion_state && not s.motion_file.writer_active)
          (λ t on. (
            start_writer-IsOpen r.is_folder r.open_ok r.date_string s.motion_file
                (ground (arith, t)) on,
            triggered-not_cleared s.detection.motion_state (ground (arith, t)),
          ))
          λ t on. (opened on, ground (arith, e, on))
  where
    stopped : IsRecording (record s {
      motion_file = (stop_writer s.motion_file).1;
      posted_tasks = suc s.posted_tasks;
    })
    stopped on = absurd (ground (arith, stop_writer-off s.motion_file, on))

-- Where a call gives a state, it records.
abbrev Records : Option RaspiMotion → Type 0
Records none = Unit
Records (some t) = IsRecording t

Same-IsRecording :
    (s : RaspiMotion) (g : RaspiMotionFile)
    → Same s.motion_file g
    → IsRecording s
    → IsRecording (record s { motion_file = g })
Same-IsRecording s g same before on =
    let (opened, state) = before (sym same.0 ∙ on) in (same.1 ∙ opened, state)

module _ (average : List ℕ → Option ℕ) where
  drain_buffer-Records :
      (r : Round) (b : FrameBuffer) (s : RaspiMotion)
      → IsRecording s
      → Records (drain_buffer average r b s)
  unfolding drain_buffer analyse_picture
  drain_buffer-Records r b s before =
      if_cases Records (is_motion_vector b)
        (option_split Records (imv_queuing r.uninit b.content s.motion_file) tt λ q e.
          let same = imv_queuing-Same r.uninit b.content s.motion_file q.0 q.1 e in
          switch_writer-IsRecording r (analyse_picture average r (record s { motion_file = q.1 }))
            λ on. (Same-IsRecording s q.1 same before on).0)
        (if_cases Records (is_frame_end b)
          (option_split Records (frame_queuing r.uninit b.content (is_key_frame b) s.motion_file) tt
            λ q e.
              Same-IsRecording s q.1
                (frame_queuing-Same r.uninit b.content (is_key_frame b) s.motion_file q.0 q.1 e)
                before)
          before)

  abbrev Continues : Option (Bool × RaspiMotion) → Type 0
  Continues none = Unit
  Continues (some (goes_on, t)) = IsRecording t

  drain_process-Continues :
      (r : Round) (s : RaspiMotion) → IsRecording s → Continues (drain_process average r s)
  unfolding drain_process
  drain_process-Continues r s before = if_cases Continues s.motion_drain_quit stopped (
      option_cases Continues r.buffer before λ b.
        if_cases Continues (ltb 0 (length b.content))
          (drained (drain_buffer average r b s) (drain_buffer-Records r b s before)) before)
    where
      stopped : IsRecording (record s { motion_file = (stop_writer s.motion_file).1 })
      stopped on = absurd (ground (arith, stop_writer-off s.motion_file, on))

      drained :
          (o : Option RaspiMotion)
          → Records o
          → Continues (elim o [ none ↦ none | some t ↦ some (true, t) ])
      drained none h = tt
      drained (some t) h = h

  drain_rounds-Records :
      (rs : List (Bool × Round)) (s : RaspiMotion)
      → IsRecording s
      → Records (drain_rounds average rs s)
  unfolding drain_rounds
  drain_rounds-Records [] s before = before
  drain_rounds-Records ((quits, r) ∷ rs) s before =
      let s' : RaspiMotion = record s {
        motion_drain_quit = if quits then true else s.motion_drain_quit;
      } in
      went (drain_process average r s') (drain_process-Continues r s' before)
        λ t h. drain_rounds-Records rs t h
    where
      went :
          (o : Option (Bool × RaspiMotion))
          → Continues o
          → ((t : RaspiMotion) → IsRecording t → Records (drain_rounds average rs t))
          → Records (elim o [
            | none ↦ none
            | some (goes_on, t) ↦ if goes_on then drain_rounds average rs t else some t
          ])
      went none h ih = tt
      went (some (true, t)) h ih = ih t h
      went (some (false, t)) h ih = h

  -- However many rounds the drain thread runs, from a state whose writer is not active: while the
  -- writer is active, its video file is open and the motion is not over; a round after StopCapture
  -- then ends the thread and closes the file.
  pub drain_rounds-IsRecording :
      (rs : List (Bool × Round)) (r : Round) (s t : RaspiMotion)
      → s.motion_file.writer_active ≡ false
      → drain_rounds average rs s ≡ some t
      → t.motion_file.writer_active ≡ true
      → (t.motion_file.frame_writer_handle.is_open ≡ true)
        × (is_cleared t.detection.motion_state ≡ false)
        × (drain_process average r (record t { motion_drain_quit = true })
            ≡ some (
              false,
              record t { motion_drain_quit = true; motion_file = (stop_writer t.motion_file).1 },
            ))
        × ((stop_writer t.motion_file).1.frame_writer_handle.is_open ≡ false)
  unfolding drain_process stop_writer close
  drain_rounds-IsRecording rs r s t off ran on =
      let (opened, state) =
        subst Records ran (drain_rounds-Records rs s λ e. absurd (ground (arith, off, e))) on in
      (opened, state, refl, ground (arith, on))
