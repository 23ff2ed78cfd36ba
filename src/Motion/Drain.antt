-- ===== src/Motion/Drain.antt =====
-- DrainProcess of src/raspi_motion.cc: one round of the drain thread, which puts the frames of the
-- encoder into the file writers, has the motion vectors analysed, and starts and stops the writers.
--
-- A round gives what is outside: the buffer that ReadFront returns, if any, the picture that Analyse
-- reads from it, the time, and what the file system answers. `none` is a copy out of bounds.
pub mod Recording
mod Tests
use rpi_webrtc_streamer.Base.{
  ℕ, suc, Bool, true, false, not, ◌&&◌, Option, none, some, List, [], ◌∷◌, map, ltb, if◌then◌else◌,
  length, Text,
}
use rpi_webrtc_streamer.FrameQueue.{FrameBuffer, is_key_frame, is_motion_vector, is_frame_end}
use rpi_webrtc_streamer.Motion.Detection.{
  is_cleared, is_triggered, Detection, Call, triggers, clears, points, observe_all,
}
use rpi_webrtc_streamer.Motion.Vector.{
  RaspiMotionVector, Picture, Report, active_points_report, triggered_report, cleared_report,
  analyse,
}
use rpi_webrtc_streamer.Motion.File.{
  RaspiMotionFile, frame_queuing, imv_queuing, start_writer, stop_writer,
}

pub record RaspiMotion : Type 0 where
  pub motion_file : RaspiMotionFile
  pub detection : Detection
  pub motion_analysis : RaspiMotionVector
  pub motion_drain_quit : Bool
  -- how many tasks that limit the directory were posted
  pub posted_tasks : ℕ

pub record Round : Type 0 where
  pub buffer : Option FrameBuffer
  pub picture : Picture
  pub now : ℕ
  pub is_folder : Text → Bool
  pub open_ok : Text → Bool
  pub date_string : Text
  pub uninit : ℕ → ℕ

-- RaspiMotion is the observer of its motion analysis.
abbrev pub observer_call : ℕ → Report → Call
observer_call now (active_points_report total active) = points now total active
observer_call now (triggered_report active_nums) = triggers now active_nums
observer_call now (cleared_report updates) = clears now updates

-- After a picture: the writers stop when the motion is over, and start when there is one.
unfoldable pub switch_writer : Round → RaspiMotion → RaspiMotion
switch_writer r s =
    if is_cleared s.detection.motion_state && s.motion_file.writer_active
    then record s { motion_file = (stop_writer s.motion_file).1; posted_tasks = suc s.posted_tasks }
    else (if is_triggered s.detection.motion_state && not s.motion_file.writer_active
        then record s {
          motion_file = (start_writer r.is_folder r.open_ok r.date_string s.motion_file).1;
        }
        else s)

module _ (average : List ℕ → Option ℕ) where
  unfoldable pub analyse_picture : Round → RaspiMotion → RaspiMotion
  analyse_picture r s =
      let (reports, analysis) = analyse r.picture s.motion_analysis in
      record s {
        motion_analysis = analysis;
        detection = observe_all average (map (observer_call r.now) reports) s.detection;
      }

  -- A buffer that is not empty: a motion vector, or the end of a frame.
  unfoldable pub drain_buffer : Round → FrameBuffer → RaspiMotion → Option RaspiMotion
  unfolding switch_writer analyse_picture
  drain_buffer r b s =
      if is_motion_vector b
      then elim (imv_queuing r.uninit b.content s.motion_file) [
        | none ↦ none
        | some (written, f) ↦
            some (switch_writer r (analyse_picture r (record s { motion_file = f })))
      ]
      else (if is_frame_end b
          then elim (frame_queuing r.uninit b.content (is_key_frame b) s.motion_file) [
            | none ↦ none
            | some (written, f) ↦ some (record s { motion_file = f })
          ]
          else some s)

  -- The result is false when the thread is to end.
  unfoldable pub drain_process : Round → RaspiMotion → Option (Bool × RaspiMotion)
  unfolding drain_buffer
  drain_process r s =
      if s.motion_drain_quit
      then some (false, record s { motion_file = (stop_writer s.motion_file).1 })
      else elim r.buffer [
        | none ↦ some (true, s)
        | some b ↦
            if ltb 0 (length b.content)
            then elim (drain_buffer r b s) [ none ↦ none | some t ↦ some (true, t) ]
            else some (true, s)
      ]

  -- The drain thread, for the rounds that it is given; `quits` says whether StopCapture has set
  -- the quit flag before a round.
  unfoldable pub drain_rounds : List (Bool × Round) → RaspiMotion → Option RaspiMotion
  unfolding drain_process
  drain_rounds [] s = some s
  drain_rounds ((quits, r) ∷ rs) s =
      let s' : RaspiMotion = record s {
        motion_drain_quit = if quits then true else s.motion_drain_quit;
      } in
      elim (drain_process r s') [
        | none ↦ none
        | some (goes_on, t) ↦ let rest = drain_rounds rs t in if goes_on then rest else some t
      ]
