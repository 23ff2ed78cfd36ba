-- ===== src/ConfigMedia/Integers/Bounds.antt =====
-- The integer settings: their ranges, which the validators test.
use rpi_webrtc_streamer.Base.{
  ℕ, ◌-◌, ◌^◌, ◌≤◌, ◌<◌, ◌≡◌, refl, sym, ap, subst, ◌∙◌, ◌⊎◌, inl, true, some, List, [], ◌∷◌,
  get_elem?, arith, ◌==◌, if_split, ==_iff,
}
use rpi_webrtc_streamer.ConfigMedia.{with_int}
use rpi_webrtc_streamer.ConfigMedia.Integers.{validate_int}
use rpi_webrtc_streamer.ConfigMedia.Vars.{
  IntVar, int_index, camera_select, max_bitrate, video_rotation, fixed_video_fps,
  audio_jitter_buffer_max_packets, audio_jitter_buffer_min_delay_ms, video_sharpness,
  video_contrast, video_brightness, video_saturation, video_ev, video_annotate_text_size_ratio,
  still_camera_num, still_width, still_height, still_max_age, still_quality, still_capture_interval,
}
use rpi_webrtc_streamer.ConfigMedia.Rows.{int_default}

-- The int of a pattern is at most `n` away from 0.
abbrev pub IsNear : ℕ → ℕ → Type 0
IsNear n value = (value ≤ n) ⊎ (2 ^ 32 - n ≤ value)

-- The range of a setting, on patterns.
unfoldable pub IsBounded : IntVar → ℕ → Type 0
IsBounded camera_select value = value ≤ 2
IsBounded max_bitrate value = (200 ≤ value) × (value ≤ 17000000)
IsBounded video_rotation value = (value ≡ 0) ⊎ ((value ≡ 90) ⊎ ((value ≡ 180) ⊎ (value ≡ 270)))
IsBounded fixed_video_fps value = (5 ≤ value) × (value ≤ 30)
IsBounded audio_jitter_buffer_max_packets value = value < 2 ^ 31
IsBounded audio_jitter_buffer_min_delay_ms value = value < 2 ^ 31
IsBounded video_sharpness value = IsNear 100 value
IsBounded video_contrast value = IsNear 100 value
IsBounded video_brightness value = value ≤ 100
IsBounded video_saturation value = IsNear 100 value
IsBounded video_ev value = IsNear 10 value
IsBounded video_annotate_text_size_ratio value = (2 ≤ value) × (value < 10)
IsBounded still_camera_num value = value ≤ 3
IsBounded still_width value = Unit
IsBounded still_height value = Unit
IsBounded still_max_age value = value ≤ 600
IsBounded still_quality value = value ≤ 100
IsBounded still_capture_interval value = value ≤ 3600

int_vars : List IntVar
int_vars =
    camera_select ∷ max_bitrate ∷ video_rotation ∷ fixed_video_fps ∷ audio_jitter_buffer_max_packets
    ∷ audio_jitter_buffer_min_delay_ms ∷ video_sharpness ∷ video_contrast ∷ video_brightness
    ∷ video_saturation ∷ video_ev ∷ video_annotate_text_size_ratio ∷ still_camera_num ∷ still_width
    ∷ still_height ∷ still_max_age ∷ still_quality ∷ still_capture_interval ∷ []

get_elem?-int_index : (v : IntVar) → get_elem? int_vars (int_index v) ≡ some v
unfolding int_vars
get_elem?-int_index camera_select = refl
get_elem?-int_index max_bitrate = refl
get_elem?-int_index video_rotation = refl
get_elem?-int_index fixed_video_fps = refl
get_elem?-int_index audio_jitter_buffer_max_packets = refl
get_elem?-int_index audio_jitter_buffer_min_delay_ms = refl
get_elem?-int_index video_sharpness = refl
get_elem?-int_index video_contrast = refl
get_elem?-int_index video_brightness = refl
get_elem?-int_index video_saturation = refl
get_elem?-int_index video_ev = refl
get_elem?-int_index video_annotate_text_size_ratio = refl
get_elem?-int_index still_camera_num = refl
get_elem?-int_index still_width = refl
get_elem?-int_index still_height = refl
get_elem?-int_index still_max_age = refl
get_elem?-int_index still_quality = refl
get_elem?-int_index still_capture_interval = refl

int_index_inj : (u v : IntVar) → int_index u ≡ int_index v → u ≡ v
int_index_inj u v e =
    some_inj (sym (get_elem?-int_index u) ∙ ap (get_elem? int_vars) e ∙ get_elem?-int_index v)
  where
    some_inj : some u ≡ some v → u ≡ v
    some_inj h = cc

-- What a validator accepts is in the range.
pub validate_int-IsBounded :
    (v : IntVar) (value : ℕ) → value < 2 ^ 32 → validate_int v value ≡ true → IsBounded v value
unfolding validate_int IsBounded
validate_int-IsBounded camera_select value small h = ground (arith, h)
validate_int-IsBounded max_bitrate value small h = ground (arith, h)
validate_int-IsBounded video_rotation value small h = ground (arith, h)
validate_int-IsBounded fixed_video_fps value small h = ground (arith, h)
validate_int-IsBounded audio_jitter_buffer_max_packets value small h = ground (arith, h)
validate_int-IsBounded audio_jitter_buffer_min_delay_ms value small h = ground (arith, h)
validate_int-IsBounded video_sharpness value small h = ground (arith, h)
validate_int-IsBounded video_contrast value small h = ground (arith, h)
validate_int-IsBounded video_brightness value small h = ground (arith, h)
validate_int-IsBounded video_saturation value small h = ground (arith, h)
validate_int-IsBounded video_ev value small h = ground (arith, h)
validate_int-IsBounded video_annotate_text_size_ratio value small h = ground (arith, h)
validate_int-IsBounded still_camera_num value small h = ground (arith, h)
validate_int-IsBounded still_width value small h = tt
validate_int-IsBounded still_height value small h = tt
validate_int-IsBounded still_max_age value small h = ground (arith, h)
validate_int-IsBounded still_quality value small h = ground (arith, h)
validate_int-IsBounded still_capture_interval value small h = ground (arith, h)

pub int_default-IsBounded : (v : IntVar) → IsBounded v (int_default v)
unfolding IsBounded
int_default-IsBounded camera_select = omega arith
int_default-IsBounded max_bitrate = (omega arith, omega arith)
int_default-IsBounded video_rotation = inl refl
int_default-IsBounded fixed_video_fps = (omega arith, omega arith)
int_default-IsBounded audio_jitter_buffer_max_packets = omega arith
int_default-IsBounded audio_jitter_buffer_min_delay_ms = omega arith
int_default-IsBounded video_sharpness = inl (omega arith)
int_default-IsBounded video_contrast = inl (omega arith)
int_default-IsBounded video_brightness = omega arith
int_default-IsBounded video_saturation = inl (omega arith)
int_default-IsBounded video_ev = inl (omega arith)
int_default-IsBounded video_annotate_text_size_ratio = (omega arith, omega arith)
int_default-IsBounded still_camera_num = omega arith
int_default-IsBounded still_width = tt
int_default-IsBounded still_height = tt
int_default-IsBounded still_max_age = omega arith
int_default-IsBounded still_quality = omega arith
int_default-IsBounded still_capture_interval = omega arith

-- A value in the range of a setting is assigned to it.
pub with_int-IsBounded :
    (v u : IntVar) (value : ℕ) (ints : IntVar → ℕ)
    → IsBounded v value
    → IsBounded u (ints u)
    → IsBounded u (with_int v value ints u)
with_int-IsBounded v u value ints bounded before =
    if_split (IsBounded u) (int_index u == int_index v)
      (λ e. subst (λ w. IsBounded w value) (sym (int_index_inj u v ((==_iff _ _).0 e))) bounded)
      λ e. before
