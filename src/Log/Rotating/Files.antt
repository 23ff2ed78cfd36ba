-- ===== src/Log/Rotating/Files.antt =====
-- LogRotatingStream as a list of files, the newest first.
use rpi_webrtc_streamer.Base.{
  ℕ, zero, suc, ◌+◌, ◌-◌, ◌≤◌, ◌<◌, min, ◌≡◌, refl, sym, ap, ap₂, subst, ◌∙◌, inl, inr, Bool, true,
  false, Option, none, some, List, [], ◌∷◌, ◌++◌, arith, ltb, leb, if◌then◌else◌, Bool-cases,
  le_or_lt, length, take, All, length-append, length-take, take_all, update, update_self, update_ne,
  size_mod, add_size, sub_size, Text,
}
use mathlib.Core.Path.{subst₂}
use rpi_webrtc_streamer.Log.Rotating.{
  Disk, Answers, LogRotatingStream, append_file, close_current_file, open_current_file, move_files,
  delete_oldest, rotate_files, open_stream, write_stream,
}
use rpi_webrtc_streamer.Log.Rotating.Shift.{window, window_ext, AllOk, delete_move_window}

-- The abstract log: the newest file, and the older ones, of which there are at most `room`.
abbrev pub Files : Type 0
Files = Text × List (Option Text)

abbrev pub new_file : ℕ → List (Option Text) → Files
new_file room files = ([], take room files)

-- A write fills the newest file up to its size; a full one is followed by a new one.
abbrev pub log_write : ℕ → ℕ → Text → Files → Files
log_write room size bytes (newest, older) =
    if ltb (length newest + length bytes) size
    then (newest ++ bytes, older)
    else new_file room (some (newest ++ take (size - length newest) bytes) ∷ older)

abbrev pub file_length : Option Text → ℕ
file_length none = 0
file_length (some t) = length t

-- An open log stream whose files are `files`, none above the maximal size.
pub record IsLog (files : Files) (s : LogRotatingStream) : Type 0 where
  pub opened : s.is_open ≡ true
  pub newest : s.disk 0 ≡ some files.0
  pub older : window s.disk 1 s.rotation_index ≡ files.1
  pub written : s.current_bytes_written ≡ length files.0
  pub below : length files.0 < s.max_file_size
  pub bounded : All (λ f. file_length f ≤ s.max_file_size) files.1

All-take : {A : Type 0} (P : A → Type 0) (n : ℕ) (xs : List A) → All P xs → All P (take n xs)
All-take P zero xs h = tt
All-take P (suc n) [] h = tt
All-take P (suc n) (x ∷ xs) h = (h.0, All-take P n xs h.1)

take-window : (disk : Disk) (i n : ℕ) → take n (window disk i (suc n)) ≡ window disk i n
take-window disk i zero = refl
take-window disk i (suc n) = ap (◌∷◌ (disk i)) (take-window disk (suc i) n)

module _ (w : Answers) (ok : AllOk w) (s : LogRotatingStream) where
  -- The stream after RotateFiles, and before its new file is there.
  abbrev last : ℕ
  last = s.rotation_index

  abbrev moved : Disk
  moved = move_files w last (delete_oldest w last s.disk)

  abbrev rotated : LogRotatingStream
  rotated = record s {
    disk = update moved 0 (some []);
    is_open = true;
    current_bytes_written = if s.is_open then 0 else s.current_bytes_written;
  }

  rotate_files_lem : rotate_files w s ≡ rotated
  unfolding rotate_files open_current_file close_current_file
  rotate_files_lem = elim (Bool-cases s.is_open) [
    | inl e ↦ ground (arith, ok.opens)
    | inr e ↦ ground (arith, ok.opens)
  ]

  -- RotateFiles starts a new file in front of the others, and drops the last of them.
  rotate_files-IsLog :
      (files : List (Option Text))
      → (s.is_open ≡ false → s.current_bytes_written ≡ 0)
      → 0 < s.max_file_size
      → window s.disk 0 (suc last) ≡ files
      → All (λ f. file_length f ≤ s.max_file_size) files
      → IsLog (new_file last files) (rotate_files w s)
  rotate_files-IsLog files closed size same bounded =
      subst (IsLog (new_file last files)) (sym rotate_files_lem) (record {
        opened = refl;
        newest = update_self moved 0 (some []);
        older =
            window_ext moved (update moved 0 (some [])) 1 1 last
              (λ k lt. update_ne moved 0 (1 + k) (some []) (λ e. omega arith))
            ∙ delete_move_window w ok last s.disk
            ∙ sym (take-window s.disk 0 last)
            ∙ ap (take last) same;
        written = elim (Bool-cases s.is_open) [
          | inl e ↦ ground arith
          | inr e ↦ ground (arith, closed e)
        ];
        below = size;
        bounded = All-take _ last files bounded;
      })

module _ (w : Answers) (ok : AllOk w) (s : LogRotatingStream) (newest : Text)
    (older : List (Option Text)) (v : IsLog (newest, older) s) (bytes : Text)
    (small : s.max_file_size < size_mod) where
  abbrev room_left : ℕ
  room_left = s.max_file_size - length newest

  abbrev taken : ℕ
  taken = min (length bytes) room_left

  abbrev filled : LogRotatingStream
  filled = record s {
    disk = append_file s.disk 0 (take taken bytes);
    current_bytes_written = add_size s.current_bytes_written taken;
  }

  abbrev filled_text : Text
  filled_text = newest ++ take taken bytes

  sub_room : sub_size s.max_file_size s.current_bytes_written ≡ room_left
  sub_room = omega (arith, v.written, v.below)

  write_stream_lem : write_stream w bytes s ≡ (
    some taken,
    if leb filled.max_file_size filled.current_bytes_written then rotate_files w filled else filled,
  )
  unfolding write_stream
  write_stream_lem = ground (arith, v.opened, ok.writes, ok.flushes, sub_room)

  filled_newest : filled.disk 0 ≡ some filled_text
  filled_newest = ap (λ o. elim o [ none ↦ none | some t ↦ some (t ++ take taken bytes) ]) v.newest

  filled_length : filled.current_bytes_written ≡ length filled_text
  filled_length =
      omega (
        arith,
        v.written,
        v.below,
        length-append newest (take taken bytes),
        length-take taken bytes,
      )

  filled_older : window filled.disk 1 s.rotation_index ≡ older
  filled_older =
      window_ext s.disk filled.disk 1 1 s.rotation_index
        (λ k lt. update_ne s.disk 0 (1 + k) _ (λ e. omega arith))
      ∙ v.older

  abbrev Written : Files → Option ℕ × LogRotatingStream → Type 0
  Written files r = (r.0 ≡ some taken) × IsLog files r.1

  within-Written :
      length newest + length bytes < s.max_file_size
      → Written (newest ++ bytes, older) (some taken, filled)
  within-Written lt =
      let all : take taken bytes ≡ bytes = take_all taken bytes (omega arith) in
      (
        refl,
        record {
          opened = v.opened;
          newest = filled_newest ∙ ap (λ t. some (newest ++ t)) all;
          older = filled_older;
          written = filled_length ∙ ap (λ t. length (newest ++ t)) all;
          below = omega (arith, length-append newest bytes);
          bounded = v.bounded;
        },
      )

  over-Written :
      s.max_file_size ≤ length newest + length bytes
      → Written
          (new_file s.rotation_index (some (newest ++ take room_left bytes) ∷ older))
          (some taken, rotate_files w filled)
  over-Written le =
      let all : taken ≡ room_left = omega (arith, v.below) in
      (
        refl,
        rotate_files-IsLog w ok filled _ (λ e. absurd (ground (arith, v.opened, e)))
            (omega (arith, v.below))
            (ap₂ ◌∷◌ (filled_newest ∙ ap (λ n. some (newest ++ take n bytes)) all) filled_older)
            (
              omega (
                arith,
                length-append newest (take room_left bytes),
                length-take room_left bytes,
                v.below,
              ),
              v.bounded,
            ),
      )

  abbrev choice : Bool → LogRotatingStream
  choice b = if b then rotate_files w filled else filled

  full :
      s.max_file_size ≤ length newest + length bytes
      → leb s.max_file_size filled.current_bytes_written ≡ true
  full le = ground (arith, v.written, v.below)

  not_full :
      length newest + length bytes < s.max_file_size
      → leb s.max_file_size filled.current_bytes_written ≡ false
  not_full lt = ground (arith, v.written, v.below)

  over :
      s.max_file_size ≤ length newest + length bytes
      → log_write s.rotation_index s.max_file_size bytes (newest, older)
        ≡ new_file s.rotation_index (some (newest ++ take room_left bytes) ∷ older)
  over le = ground arith

  within :
      length newest + length bytes < s.max_file_size
      → log_write s.rotation_index s.max_file_size bytes (newest, older) ≡ (newest ++ bytes, older)
  within lt = ground arith

  files-Written : Written (log_write s.rotation_index s.max_file_size bytes (newest, older)) (
    some taken,
    if leb filled.max_file_size filled.current_bytes_written then rotate_files w filled else filled,
  )
  files-Written = elim (le_or_lt s.max_file_size (length newest + length bytes)) [
    | inl le ↦
        subst₂ Written (sym (over le)) (ap (λ b. (some taken, choice b)) (sym (full le)))
          (over-Written le)
    | inr lt ↦
        subst₂ Written (sym (within lt)) (ap (λ b. (some taken, choice b)) (sym (not_full lt)))
          (within-Written lt)
  ]

-- When the system calls succeed, Write on an open stream accepts the bytes that fit into the newest
-- file and acts on the list of files as log_write does: they are appended, and a file that is full
-- is followed by a new one, at which the oldest file is dropped. The sizes fit into 64 bits.
pub write_stream-IsLog :
    (w : Answers) (s : LogRotatingStream) (newest : Text) (older : List (Option Text))
    (bytes : Text)
    → AllOk w
    → IsLog (newest, older) s
    → s.max_file_size < size_mod
    → ((write_stream w bytes s).0 ≡ some (min (length bytes) (s.max_file_size - length newest)))
      × IsLog
          (log_write s.rotation_index s.max_file_size bytes (newest, older))
          (write_stream w bytes s).1
write_stream-IsLog w s newest older bytes ok v small =
    subst
      (Written w ok s newest older v bytes small
        (log_write s.rotation_index s.max_file_size bytes (newest, older)))
      (sym (write_stream_lem w ok s newest older v bytes small))
      (files-Written w ok s newest older v bytes small)

-- When the system calls succeed, Open succeeds: it starts a new file in front of the files that are
-- on the disk, none above the maximal size, and drops the last of them.
pub open_stream-IsLog :
    (w : Answers) (s : LogRotatingStream) (files : List (Option Text))
    → AllOk w
    → (s.is_open ≡ false → s.current_bytes_written ≡ 0)
    → 0 < s.max_file_size
    → window s.disk 0 (suc s.rotation_index) ≡ files
    → All (λ f. file_length f ≤ s.max_file_size) files
    → ((open_stream w s).0 ≡ true) × IsLog (new_file s.rotation_index files) (open_stream w s).1
unfolding open_stream
open_stream-IsLog w s files ok closed size same bounded =
    let v = rotate_files-IsLog w ok s files closed size same bounded in (v.opened, v)
