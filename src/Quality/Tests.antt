-- ===== src/Quality/Tests.antt =====
-- Runs of the choice of a resolution.
use rpi_webrtc_streamer.Base.{
  ℕ, ◌*◌, ◌/◌, ◌≡◌, refl, true, Option, none, some, List, [], ◌∷◌, arith,
}
use rpi_webrtc_streamer.Quality.{
  MotionFactor, QualityConfig, no_params, choose_motion_factor, expected_diff, get_best_match,
}
use rpi_webrtc_streamer.Quality.Nearest.{IsNearest, get_best_match-IsNearest}

-- A bit rate of a tenth of a bit for each point and frame.
abbrev tenth : ℕ → ℕ → ℕ → MotionFactor → ℕ
tenth width height framerate mf = width * height * framerate / 10000

abbrev last_sample : List ℕ → Option ℕ
last_sample [] = none
last_sample (x ∷ xs) = some x

abbrev two_resolutions : QualityConfig
two_resolutions = record {
  resolution_config =
      record { width = 320; height = 240 } ∷ record { width = 640; height = 480 } ∷ [];
  target_framerate = 25;
  target_bitrate = 300;
  samples = [];
  current_res = no_params;
  use_dynamic_resolution = true;
}

high_rate :
    (get_best_match tenth last_sample 700 two_resolutions).0
    ≡ record { width = 640; height = 480; framerate = 25; bitrate = 700 }
unfolding get_best_match
high_rate = refl

get_best_match-IsNearest_example :
    IsNearest
      (expected_diff tenth (choose_motion_factor none) 700)
      two_resolutions.resolution_config
      (get_best_match tenth last_sample 700 two_resolutions).0
    × ((get_best_match tenth last_sample 700 two_resolutions).1.current_res
        ≡ (get_best_match tenth last_sample 700 two_resolutions).0)
get_best_match-IsNearest_example =
    get_best_match-IsNearest tenth last_sample 700 two_resolutions refl (omega arith)
      (omega arith, (omega arith, tt))
