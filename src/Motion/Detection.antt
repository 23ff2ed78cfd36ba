-- ===== src/Motion/Detection.antt =====
-- The motion state of class RaspiMotion, src/raspi_motion.cc: the observers that the motion analysis
-- calls. The clock's answer is an argument, and so is `average`, what the moving average of WebRTC
-- returns for the samples given to it, the latest first. Counts and percentages are not negative.
pub mod Clearing
use rpi_webrtc_streamer.Base.{
  ℕ, ◌*◌, ◌/◌, Bool, true, false, ◌&&◌, Option, none, some, List, [], ◌∷◌, ltb, if◌then◌else◌,
  sub_size,
}

pub data MotionState : Type 0 where
  cleared triggered wait_clear : MotionState

abbrev pub is_cleared : MotionState → Bool
is_cleared cleared = true
is_cleared _ = false

abbrev pub is_triggered : MotionState → Bool
is_triggered triggered = true
is_triggered _ = false

abbrev pub is_wait_clear : MotionState → Bool
is_wait_clear wait_clear = true
is_wait_clear _ = false

pub record Detection : Type 0 where
  pub motion_state : MotionState
  pub last_average_print_timestamp : ℕ
  pub clear_wait_timestamp : ℕ
  pub clear_wait_period : ℕ
  pub active_percent_clear_threshold : ℕ
  pub active_percent_trigger_threshold : ℕ
  pub samples : List ℕ

abbrev pub default_motion_active_trigger_percent : ℕ
default_motion_active_trigger_percent = 10

abbrev pub default_motion_active_clear_percent : ℕ
default_motion_active_clear_percent = 5

abbrev pub default_motion_clear_wait_period : ℕ
default_motion_clear_wait_period = 5000

abbrev pub default_motion_average_print_diff : ℕ
default_motion_average_print_diff = 1000

-- The constructor first takes the period and the threshold from the configuration, and then sets
-- them to the defaults.
pub init : ℕ → ℕ → Detection
init configured_wait_period configured_clear_percent =
    let d : Detection = record {
      motion_state = cleared;
      last_average_print_timestamp = 0;
      clear_wait_timestamp = 0;
      clear_wait_period = configured_wait_period;
      active_percent_clear_threshold = configured_clear_percent;
      active_percent_trigger_threshold = 0;
      samples = [];
    } in
    record d {
      clear_wait_period = default_motion_clear_wait_period;
      active_percent_trigger_threshold = default_motion_active_trigger_percent;
      active_percent_clear_threshold = default_motion_active_clear_percent;
    }

unfoldable pub on_motion_triggered : ℕ → Detection → Detection
on_motion_triggered active_nums d = record d { motion_state = triggered }

unfoldable pub on_motion_cleared : ℕ → ℕ → Detection → Detection
on_motion_cleared now updates d =
    if is_triggered d.motion_state
    then record d { clear_wait_timestamp = now; motion_state = wait_clear }
    else d

-- The calls of the observers, with the time at which each is made.
pub data Call : Type 0 where
  triggers : ℕ → ℕ → Call
  clears : ℕ → ℕ → Call
  points : ℕ → ℕ → ℕ → Call

module _ (average : List ℕ → Option ℕ) where
  -- What happens once there is an average.
  pub update_average : ℕ → ℕ → Detection → Detection
  update_average now moving_average d =
      let d₁ : Detection =
        if ltb default_motion_average_print_diff (sub_size now d.last_average_print_timestamp)
        then record d { last_average_print_timestamp = now }
        else d in
      if is_wait_clear d₁.motion_state
      then (if ltb moving_average d₁.active_percent_clear_threshold
            && ltb d₁.clear_wait_period (sub_size now d₁.clear_wait_timestamp)
          then record d₁ { motion_state = cleared }
          else d₁)
      else d₁

  unfoldable pub on_active_points : ℕ → ℕ → ℕ → Detection → Detection
  unfolding update_average
  on_active_points now total_points active_points d =
      let d₁ : Detection = record d {
        samples = (active_points * 100 / total_points) ∷ d.samples;
      } in
      elim (average d₁.samples) [ none ↦ d₁ | some a ↦ update_average now a d₁ ]

  unfoldable pub observe : Call → Detection → Detection
  unfolding on_motion_triggered on_motion_cleared on_active_points
  observe (triggers now active_nums) d = on_motion_triggered active_nums d
  observe (clears now updates) d = on_motion_cleared now updates d
  observe (points now total active) d = on_active_points now total active d

  unfoldable pub observe_all : List Call → Detection → Detection
  observe_all [] d = d
  observe_all (c ∷ cs) d = observe_all cs (observe c d)
