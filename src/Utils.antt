-- ===== src/Utils.antt =====
-- The path and text functions of src/utils.cc. The file system is outside the program: `is_folder`
-- is what `stat` says of a path.
pub mod Search
pub mod Paths
pub mod Resolution
mod Tests
use rpi_webrtc_streamer.Base.{
  ℕ, suc, ◌+◌, ◌-◌, ◌/◌, Bool, true, false, ◌&&◌, Option, none, some, [], ◌∷◌, ◌++◌, ltb, ◌==◌,
  if◌then◌else◌, length, take, drop, Text, codes,
}
use Search.{find, find_last_of}

abbrev pub folder_delims : ℕ
folder_delims = b'/'

pub data LoggingSeverity : Type 0 where
  ls_verbose ls_info ls_warning ls_error ls_none : LoggingSeverity

abbrev text_eq : Text → Text → Bool
text_eq [] [] = true
text_eq [] (y ∷ ys) = false
text_eq (x ∷ xs) [] = false
text_eq (x ∷ xs) (y ∷ ys) = x == y && text_eq xs ys

pub string_2_log_severity : Text → LoggingSeverity
string_2_log_severity severity =
    if text_eq severity (codes "VERBOSE")
    then ls_verbose
    else (if text_eq severity (codes "INFO")
        then ls_info
        else (if text_eq severity (codes "WARNING")
            then ls_warning
            else (if text_eq severity (codes "ERROR") then ls_error else ls_none)))

-- `substr(pos + 1, npos)`, where `npos + 1` is 0.
abbrev after_pos : Option ℕ → Text → Text
after_pos none t = t
after_pos (some pos) t = drop (suc pos) t

module _ {ℓ} {A : Type ℓ} (from_string : Text → Option A) (zero_value : A) where
  -- The second half of `ParseVideoResolution`, with what the first has put into `*width`.
  parse_height : Text → A → Bool × A × A
  parse_height token width = elim (from_string token) [
    | none ↦ (false, zero_value, zero_value)
    | some height ↦ (true, width, height)
  ]

  parse_from : Option ℕ → Text → A → Bool × A × A
  unfolding parse_height
  parse_from none resolution width = parse_height (after_pos none resolution) width
  parse_from (some pos) resolution width = elim (from_string (take pos resolution)) [
    | none ↦ (false, zero_value, zero_value)
    | some value ↦ parse_height (after_pos (some pos) resolution) value
  ]

  -- The result, and `*width` and `*height` afterwards; `width` is `*width` before the call.
  pub parse_video_resolution : Text → A → Bool × A × A
  unfolding parse_from
  parse_video_resolution resolution width = parse_from (find b'x' resolution) resolution width

-- What `find_last_of(c, folder.length() - 2)` searches: for a folder of fewer than two bytes the
-- subtraction wraps, and it is the whole folder.
abbrev pub before_last : Text → Text
before_last folder = if ltb (length folder) 2 then folder else take (length folder - 1) folder

abbrev pub up_to : Text → Option ℕ → Text
up_to folder none = []
up_to folder (some pos) = take (suc pos) folder

pub parent_of : Text → Text
parent_of folder = up_to folder (find_last_of folder_delims (before_last folder))

module _ (is_folder : Text → Bool) where
  -- `none` is the result `false`, which leaves the output as it was.
  pub get_folder_with_tailing_delimiter : Text → Option Text
  get_folder_with_tailing_delimiter path =
      if is_folder path
      then elim (find_last_of folder_delims path) [
        | none ↦ if length path == 0 then some path else some (path ++ (folder_delims ∷ []))
        | some pos ↦
            if suc pos == length path then some path else some (path ++ (folder_delims ∷ []))
      ]
      else elim (find_last_of folder_delims path) [
        | none ↦ none
        | some pos ↦ some (take (suc pos) path)
      ]

  pub get_parent_folder : Text → Text
  get_parent_folder path = elim (get_folder_with_tailing_delimiter path) [
    | none ↦ parent_of path
    | some folder ↦ parent_of folder
  ]

unfoldable pub get_folder : Text → Text
get_folder path = elim (find_last_of folder_delims path) [ none ↦ path | some pos ↦ take pos path ]
