-- ===== src/Motion/DirLimit.antt =====
-- LimitTotalDirSizeTask::Run of src/raspi_motionfile.cc. The directory is outside the program:
-- `entries` is what `readdir` returns, with the size that `stat` gives (0 if it fails), and `sort` is
-- `std::list::sort` by the file name. `size_mod` is one more than the largest size_t: 2 ^ 32 in the
-- builds of misc/webrtc_arm_build_args.gn, where `total_dir_size` wraps around at 4 GiB.
pub mod Removal
use rpi_webrtc_streamer.Base.{
  ℕ, Bool, true, false, ◌&&◌, Option, none, some, List, [], ◌∷◌, ltb, ◌==◌, if◌then◌else◌, ◌+◌, ◌-◌,
  ◌%◌, Text,
}

pub record FileInfo : Type 0 where
  pub filename : Text
  pub size : ℕ

-- `name.compare(0, prefix.size(), prefix) == 0`
abbrev pub has_prefix : Text → Text → Bool
has_prefix [] name = true
has_prefix (p ∷ ps) [] = false
has_prefix (p ∷ ps) (x ∷ xs) = x == p && has_prefix ps xs

-- The files of the directory with the prefix, and their total size.
pub collect : Text → List FileInfo → List FileInfo
collect prefix [] = []
collect prefix (f ∷ fs) =
    let rest = collect prefix fs in if has_prefix prefix f.filename then f ∷ rest else rest

unfoldable pub total_size : ℕ → List FileInfo → ℕ
total_size size_mod [] = 0
total_size size_mod (f ∷ fs) = (f.size + total_size size_mod fs) % size_mod

-- `total_dir_size - file_list.front().size`
unfoldable pub size_without : ℕ → ℕ → FileInfo → ℕ
size_without size_mod total_dir_size f = (total_dir_size + size_mod - f.size) % size_mod

-- The loop that deletes from the front: what is deleted, in order, and what stays.
unfoldable pub remove_files : ℕ → ℕ → ℕ → List FileInfo → List FileInfo × List FileInfo
unfolding size_without
remove_files size_mod size_limit total_dir_size [] = ([], [])
remove_files size_mod size_limit total_dir_size (f ∷ fs) =
    let left = size_without size_mod total_dir_size f in
    let (deleted, kept) = remove_files size_mod size_limit left fs in
    if ltb size_limit left then (f ∷ deleted, kept) else ([], f ∷ fs)

-- The files that the task deletes and those of the prefix that it keeps; a path that is no folder,
-- and a folder that cannot be opened, are left alone.
pub run :
    (List FileInfo → List FileInfo)
    → Option Text
    → Option (List FileInfo)
    → Text
    → ℕ
    → ℕ
    → List FileInfo × List FileInfo
unfolding remove_files collect total_size
run sort none entries prefix size_mod size_limit = ([], [])
run sort (some file_folder) none prefix size_mod size_limit = ([], [])
run sort (some file_folder) (some entries) prefix size_mod size_limit =
    let file_list = collect prefix entries in
    remove_files size_mod size_limit (total_size size_mod file_list) (sort file_list)
