-- ===== src/Utils/Resolution.antt =====
-- `ParseVideoResolution` of src/utils.cc. `rtc::FromString` is outside the program: `from_string` is
-- the number that it reads from a text, if it reads one.
use rpi_webrtc_streamer.Base.{
  ℕ, suc, ◌≡◌, ap, ◌∙◌, Bool, true, false, Option, none, some, ◌∷◌, ◌++◌, arith, length, take, drop,
  Text,
}
use rpi_webrtc_streamer.Utils.Search.{
  find_absent, find_split, occurrences, take-length-append, drop-suc-append,
}
use rpi_webrtc_streamer.Utils.{parse_height, parse_from, parse_video_resolution}

module _ {ℓ} {A : Type ℓ} (from_string : Text → Option A) (zero_value : A) where
  -- What the function is to return for a width text and a height text: both numbers, or zeros where
  -- one of the texts is no number.
  abbrev pub both : Option A → Option A → Bool × A × A
  both (some w) (some h) = (true, w, h)
  both (some w) none = (false, zero_value, zero_value)
  both none h = (false, zero_value, zero_value)

  split_parses :
      (width_text height_text text : Text) (width : A) (pos : ℕ)
      → take pos text ≡ width_text
      → drop (suc pos) text ≡ height_text
      → parse_from from_string zero_value (some pos) text width
        ≡ both (from_string width_text) (from_string height_text)
  unfolding parse_from parse_height
  split_parses width_text height_text text width pos e k = rw (← e, ← k) (ground arith)

  -- A width text without an `x`, an `x` and a height text are read as those two numbers; it fails,
  -- with zeros for both, exactly when one of the two texts is no number.
  pub parse_video_resolution_lem :
      (width_text height_text : Text) (width : A)
      → occurrences b'x' width_text ≡ 0
      → parse_video_resolution from_string zero_value (width_text ++ (b'x' ∷ height_text)) width
        ≡ both (from_string width_text) (from_string height_text)
  unfolding parse_video_resolution
  parse_video_resolution_lem width_text height_text width h =
      ap (λ r. parse_from from_string zero_value r (width_text ++ (b'x' ∷ height_text)) width)
        (find_split b'x' width_text height_text h)
      ∙ split_parses width_text height_text _ width (length width_text)
          (take-length-append width_text (b'x' ∷ height_text))
          (drop-suc-append b'x' width_text height_text)

  -- A text without an `x` is read as a height alone: if it is a number the call succeeds, and the
  -- width stays what it was before the call.
  pub parse_video_resolution_height_only :
      (resolution : Text) (width height : A)
      → occurrences b'x' resolution ≡ 0
      → from_string resolution ≡ some height
      → parse_video_resolution from_string zero_value resolution width ≡ (true, width, height)
  unfolding parse_video_resolution parse_from parse_height
  parse_video_resolution_height_only resolution width height h e =
      ground (arith, find_absent b'x' resolution h)
