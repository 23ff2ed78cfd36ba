-- ===== src/Utils/Tests.antt =====
-- Runs of the functions of src/utils.cc, and their theorems at them.
use rpi_webrtc_streamer.Base.{
  ℕ, ◌-◌, ◌≡◌, refl, Bool, true, false, Option, none, some, [], ◌∷◌, Text, codes,
}
use rpi_webrtc_streamer.Utils.Search.{find_last_of}
use rpi_webrtc_streamer.Utils.{
  ls_warning, ls_none, string_2_log_severity, parse_video_resolution,
  get_folder_with_tailing_delimiter, parent_of, get_parent_folder, get_folder,
}
use rpi_webrtc_streamer.Utils.Paths.{
  EndsInDelimiter, FolderOf, get_folder_with_tailing_delimiter_lem, get_parent_folder_lem,
}
use rpi_webrtc_streamer.Utils.Resolution.{
  both, parse_video_resolution_lem, parse_video_resolution_height_only,
}

severities :
    (string_2_log_severity (codes "WARNING") ≡ ls_warning)
    × (string_2_log_severity (codes "warning") ≡ ls_none)
unfolding string_2_log_severity
severities = (refl, refl)

-- Every path but the empty one is a folder.
abbrev no_files : Text → Bool
no_files [] = false
no_files (x ∷ xs) = true

folders :
    (get_folder (codes "/opt/rws/log.txt") ≡ codes "/opt/rws")
    × (get_parent_folder no_files (codes "/opt/rws") ≡ codes "/opt/")
    × (get_folder_with_tailing_delimiter (λ p. false) (codes "log.txt") ≡ none)
unfolding get_folder get_parent_folder get_folder_with_tailing_delimiter parent_of find_last_of
folders = (refl, refl, refl)

get_folder_with_tailing_delimiter_lem_example :
    EndsInDelimiter (codes "/opt/") × FolderOf no_files (codes "/opt") (codes "/opt/")
unfolding get_folder_with_tailing_delimiter find_last_of
get_folder_with_tailing_delimiter_lem_example =
    get_folder_with_tailing_delimiter_lem no_files refl (codes "/opt") (codes "/opt/") refl

get_parent_folder_lem_example : get_parent_folder no_files (codes "/opt/rws") ≡ codes "/opt/"
unfolding get_folder_with_tailing_delimiter find_last_of
get_parent_folder_lem_example =
    get_parent_folder_lem no_files (codes "/opt") (codes "rws") (codes "/opt/rws") refl (λ e. cc)
      refl

-- One digit is a number.
abbrev digit : Text → Option ℕ
digit (c ∷ []) = some (c - b'0')
digit _ = none

parse_video_resolution_lem_example :
    parse_video_resolution digit 0 (codes "6x4") 9 ≡ both digit 0 (some 6) (some 4)
parse_video_resolution_lem_example =
    parse_video_resolution_lem digit 0 (codes "6") (codes "4") 9 refl

parse_video_resolution_height_only_example :
    parse_video_resolution digit 0 (codes "4") 9 ≡ (true, 9, 4)
parse_video_resolution_height_only_example =
    parse_video_resolution_height_only digit 0 (codes "4") 9 4 refl refl
