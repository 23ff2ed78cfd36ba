-- ===== src/ConfigMedia/Video.antt =====
-- The sizes and the region of interest: the parsers of src/config_media.cc, VideoRoi of
-- src/wstreamer_types.cc and the methods of ConfigMedia that choose a size.
use rpi_webrtc_streamer.Base.{
  ℕ, suc, ◌*◌, ◌%◌, Bool, false, not, ◌&&◌, ◌||◌, Option, none, some, List, [], ◌∷◌, ◌==◌,
  if◌then◌else◌, length, Text, int_mod, lt_int,
}
use rpi_webrtc_streamer.Utils.{parse_video_resolution}
use rpi_webrtc_streamer.ConfigMedia.{Outside, VideoRoi, ConfigMedia}
use rpi_webrtc_streamer.ConfigMedia.Vars.{resolution_4_3_enable, use_dynamic_video_resolution}

module _ (O : Outside) where
  -- parse_vidio_resolution: the sizes of a list of texts, if all are sizes
  unfoldable pub parse_resolutions : List Text → Option (List (ℕ × ℕ))
  parse_resolutions [] = some []
  parse_resolutions (token ∷ tokens) =
      let rest = parse_resolutions tokens in
      let (ok, width, height) = parse_video_resolution O.from_string_int 0 token O.uninit in
      if ok then elim rest [ none ↦ none | some sizes ↦ some ((width, height) ∷ sizes) ] else none

  unfoldable pub parse_vidio_resolution : Text → Option (List (ℕ × ℕ))
  unfolding parse_resolutions
  parse_vidio_resolution resolution_list = parse_resolutions (O.split resolution_list b',')

  -- VideoRoi::Set
  unfoldable pub set_roi : ℕ → O.Double → VideoRoi O.Double → Bool × VideoRoi O.Double
  set_roi index value r =
      if index == 0
      then (
        not (O.is_less value O.double_zero || O.is_greater value O.video_roi_max),
        record r { x = value },
      )
      else (if index == 1
          then (
            not (O.is_less value O.double_zero || O.is_greater value O.video_roi_max),
            record r { y = value },
          )
          else (if index == 2
              then (O.is_greater value O.video_roi_min, record r { width = value })
              else (O.is_greater value O.video_roi_min, record r { height = value })))

  -- VideoRoi::isValid
  unfoldable pub is_valid_roi : VideoRoi O.Double → Bool
  is_valid_roi r =
      not (O.is_less r.x O.double_zero || O.is_less r.y O.double_zero)
      && not (O.is_greater (O.add_double r.x r.width) O.video_roi_max)
      && not (O.is_greater (O.add_double r.y r.height) O.video_roi_max)

  -- The loop of parse_video_roi, from an index on.
  unfoldable pub parse_roi_values : ℕ → List Text → VideoRoi O.Double → Option (VideoRoi O.Double)
  unfolding set_roi
  parse_roi_values index [] r = some r
  parse_roi_values index (token ∷ tokens) r = elim (O.from_string_double token) [
    | none ↦ none
    | some value ↦
        let (ok, r') = set_roi index value r in
        let rest = parse_roi_values (suc index) tokens r' in
        if not (O.is_greater value O.double_one) && ok then rest else none
  ]

  unfoldable pub parse_video_roi : Text → Option (VideoRoi O.Double)
  unfolding parse_roi_values is_valid_roi
  parse_video_roi text =
      let tokens = O.split text b',' in
      let zero_roi : VideoRoi O.Double = record {
        x = O.double_zero;
        y = O.double_zero;
        width = O.double_zero;
        height = O.double_zero;
      } in
      if not (length tokens == 4) then none else elim (parse_roi_values 0 tokens zero_roi) [
        | none ↦ none
        | some r ↦ if is_valid_roi r then some r else none
      ]

  unfoldable pub has_resolution : ℕ → ℕ → List (ℕ × ℕ) → Bool
  has_resolution width height [] = false
  has_resolution width height ((w, h) ∷ sizes) =
      w == width && h == height || has_resolution width height sizes

  unfoldable pub get_video_resolution_list : ConfigMedia O.Double → List (ℕ × ℕ)
  get_video_resolution_list c =
      if c.bools resolution_4_3_enable then c.resolution_list_4_3 else c.resolution_list_16_9

  unfoldable pub validate_resolution : ℕ → ℕ → ConfigMedia O.Double → Bool
  unfolding has_resolution get_video_resolution_list
  validate_resolution width height c = has_resolution width height (get_video_resolution_list c)

  -- GetFixedVideoResolution and GetMaxVideoResolution
  unfoldable pub get_fixed_video_resolution : ConfigMedia O.Double → Option (ℕ × ℕ)
  get_fixed_video_resolution c =
      if c.bools use_dynamic_video_resolution then none else some c.fixed_resolution

  unfoldable pub max_resolution : List (ℕ × ℕ) → ℕ → ℕ → ℕ × ℕ
  max_resolution [] max_width max_height = (max_width, max_height)
  max_resolution ((w, h) ∷ sizes) max_width max_height =
      let larger = lt_int ((max_width * max_height) % int_mod) ((w * h) % int_mod) in
      max_resolution sizes (if larger then w else max_width) (if larger then h else max_height)

  unfoldable pub get_max_video_resolution : ConfigMedia O.Double → ℕ × ℕ
  unfolding max_resolution get_video_resolution_list
  get_max_video_resolution c =
      let (w, h) =
        if c.bools use_dynamic_video_resolution
        then max_resolution (get_video_resolution_list c) 0 0
        else c.fixed_resolution in
      if (w * h) % int_mod == 0 then (640, 480) else (w, h)
