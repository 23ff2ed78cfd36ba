-- ===== src/Signaling/Lines.antt =====
-- The line protocol of src/direct_socket.cc: the loop of OnRead that takes lines out of the buffer, and
-- the line that SendMessageToPeer makes of a message.
pub mod Framing
use rpi_webrtc_streamer.Base.{
  ℕ, zero, suc, ◌+◌, Option, none, some, List, [], ◌∷◌, ◌++◌, ◌==◌, if◌then◌else◌, take, drop, Text,
}
use rpi_webrtc_streamer.Utils.Search.{find}

abbrev pub direct_socket_delimiter : ℕ
direct_socket_delimiter = 10

-- The loop, with fuel for each round: the lines, and what is left.
unfoldable pub extract_lines : ℕ → Text → Option (List Text × Text)
unfolding find
extract_lines zero string_buffer = none
extract_lines (suc fuel) string_buffer = elim (find direct_socket_delimiter string_buffer) [
  | none ↦ some ([], string_buffer)
  | some pos ↦ elim (extract_lines fuel (drop (suc pos) string_buffer)) [
    | none ↦ none
    | some (lines, rest) ↦ some (take pos string_buffer ∷ lines, rest)
  ]
]

-- std::remove with std::string::erase
abbrev pub remove_all : ℕ → Text → Text
remove_all c [] = []
remove_all c (x ∷ xs) = if x == c then remove_all c xs else x ∷ remove_all c xs

abbrev pub trimmed_message : Text → Text
trimmed_message message =
    remove_all direct_socket_delimiter message ++ (direct_socket_delimiter ∷ [])
