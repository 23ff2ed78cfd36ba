-- ===== src/Quality.antt =====
-- QualityConfig of src/raspi_quality_config.cc: the choice of the video resolution. Two arguments
-- stand for what is not integer code: `average` is what the moving average of WebRTC returns for the
-- samples that it was given, the latest first, and `kush_gauge` the float expressions that give the
-- bit rate for a size, a frame rate and a motion factor. Sizes, rates and their distances fit into
-- an int. The band widths of an entry, which no code reads, are left out.
pub mod Nearest
mod Tests
use rpi_webrtc_streamer.Base.{
  ℕ, ◌+◌, ◌-◌, ◌/◌, Bool, not, ◌&&◌, Option, none, some, List, [], ◌∷◌, ltb, ◌==◌, if◌then◌else◌,
}

pub record ResolutionConfigEntry : Type 0 where
  pub width : ℕ
  pub height : ℕ

-- The motion factor, a float, is a whole number or the default value 1.8.
pub data MotionFactor : Type 0 where
  default_motion_factor : MotionFactor
  max_motion_factor : MotionFactor
  whole_motion_factor : ℕ → MotionFactor

pub record VideoEncodingParams : Type 0 where
  pub width : ℕ
  pub height : ℕ
  pub framerate : ℕ
  pub bitrate : ℕ

pub record QualityConfig : Type 0 where
  pub resolution_config : List ResolutionConfigEntry
  pub target_framerate : ℕ
  pub target_bitrate : ℕ
  pub samples : List ℕ
  pub current_res : VideoEncodingParams
  pub use_dynamic_resolution : Bool

abbrev pub int_max : ℕ
int_max = 2147483647

abbrev pub max_frame_rate : ℕ
max_frame_rate = 30

abbrev pub no_params : VideoEncodingParams
no_params = record { width = 0; height = 0; framerate = 0; bitrate = 0 }

abbrev pub is_same_resolution : VideoEncodingParams → VideoEncodingParams → Bool
is_same_resolution p q = p.width == q.width && p.height == q.height

unfoldable pub report_frame_rate : ℕ → QualityConfig → QualityConfig
report_frame_rate framerate q =
    if q.target_framerate == framerate then q else record q { target_framerate = framerate }

unfoldable pub report_target_bitrate : ℕ → QualityConfig → QualityConfig
report_target_bitrate bitrate q = record q { target_bitrate = bitrate }

-- `motion_factor_of` is the float expression of a frame's motion factor.
unfoldable pub report_frame_size : (ℕ → ℕ → ℕ → ℕ) → ℕ → QualityConfig → QualityConfig
report_frame_size motion_factor_of frame_length q = record q {
  samples = motion_factor_of frame_length q.current_res.width q.current_res.height ∷ q.samples;
}

-- The average is divided by 1000 as an int, and then compared with 1.8.
unfoldable pub choose_motion_factor : Option ℕ → MotionFactor
choose_motion_factor none = default_motion_factor
choose_motion_factor (some a) =
    if ltb (a / 1000) 2 then default_motion_factor else whole_motion_factor (a / 1000)

-- abs(a - b)
abbrev pub distance : ℕ → ℕ → ℕ
distance a b = (a - b) + (b - a)

module _ (kush_gauge : ℕ → ℕ → ℕ → MotionFactor → ℕ) where
  abbrev pub expected_diff : MotionFactor → ℕ → ResolutionConfigEntry → ℕ
  expected_diff motion_factor target_bitrate e =
      distance (kush_gauge e.width e.height 25 motion_factor) target_bitrate

  -- The loop of GetBestMatch over the entries.
  unfoldable pub best_candidate :
      MotionFactor
      → QualityConfig
      → List ResolutionConfigEntry
      → VideoEncodingParams
      → ℕ
      → VideoEncodingParams
  best_candidate motion_factor q [] candidate candidate_diff = candidate
  best_candidate motion_factor q (e ∷ es) candidate candidate_diff =
      let diff = expected_diff motion_factor q.target_bitrate e in
      let closer = ltb diff candidate_diff in
      best_candidate motion_factor q es
        (if closer
          then record {
            width = e.width;
            height = e.height;
            framerate = q.target_framerate;
            bitrate = q.target_bitrate;
          }
          else candidate)
        (if closer then diff else candidate_diff)

  module _ (average : List ℕ → Option ℕ) where
    unfoldable pub get_best_match : ℕ → QualityConfig → VideoEncodingParams × QualityConfig
    unfolding best_candidate choose_motion_factor
    get_best_match target_bitrate q =
        let q₁ = record q { target_bitrate = target_bitrate } in
        let candidate =
          best_candidate (choose_motion_factor (average q.samples)) q₁ q.resolution_config no_params
            int_max in
        if not q.use_dynamic_resolution
        then (q.current_res, q)
        else (if is_same_resolution q.current_res candidate
            then (q.current_res, q₁)
            else (candidate, record q₁ { current_res = candidate }))

    unfoldable pub get_current_best_match : QualityConfig → VideoEncodingParams × QualityConfig
    unfolding get_best_match
    get_current_best_match q = get_best_match q.target_bitrate q

    -- GetInitialBestMatch, with the fixed resolution of the configuration.
    unfoldable pub get_initial_best_match :
        ℕ → ℕ → QualityConfig → VideoEncodingParams × QualityConfig
    unfolding get_best_match
    get_initial_best_match width height q =
        let candidate : VideoEncodingParams = record {
          width = width;
          height = height;
          framerate = max_frame_rate;
          bitrate = kush_gauge width height max_frame_rate max_motion_factor;
        } in
        if not q.use_dynamic_resolution
        then (candidate, record q { current_res = candidate })
        else get_best_match q.target_bitrate q
