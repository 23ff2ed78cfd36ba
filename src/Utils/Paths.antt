-- ===== src/Utils/Paths.antt =====
-- What the path functions of src/utils.cc return.
use mathlib.Core.List.{append_assoc}
use rpi_webrtc_streamer.Base.{
  ℕ, suc, ◌-◌, ◌≤◌, ◌≡◌, refl, sym, ap, ap₂, ◌∙◌, ◌≢◌, ◌⊎◌, inl, inr, Bool, true, false, Option,
  none, some, [], ◌∷◌, ◌++◌, arith, ◌==◌, if◌then◌else◌, ==_iff, Bool-cases, length, take, drop,
  length-append, take_all, take-append-drop, Text,
}
use rpi_webrtc_streamer.Utils.Search.{
  find_last_of, find_last_of-some, LastAt, occurrences, find_last_of_split, take-length-append,
  take-suc-append,
}
use rpi_webrtc_streamer.Utils.{
  folder_delims, before_last, up_to, get_folder_with_tailing_delimiter, parent_of,
  get_parent_folder,
}

-- The text ends in the delimiter.
abbrev pub EndsInDelimiter : Text → Type 0
EndsInDelimiter t = (s : Text) × (t ≡ s ++ (folder_delims ∷ []))

-- What the result is of the path, for a folder and for anything else.
abbrev pub FolderOf : (Text → Bool) → Text → Text → Type 0
FolderOf is_folder path folder =
    (is_folder path ≡ true) × ((folder ≡ path) ⊎ (folder ≡ path ++ (folder_delims ∷ [])))
    ⊎ (is_folder path ≡ false)
      × ((rest : Text) × (path ≡ folder ++ rest) × (occurrences folder_delims rest ≡ 0))

module _ (is_folder : Text → Bool) (no_empty_folder : is_folder [] ≡ false)
    (path folder : Text) where
  abbrev Good : Type 0
  Good = EndsInDelimiter folder × FolderOf is_folder path folder

  added : is_folder path ≡ true → some (path ++ (folder_delims ∷ [])) ≡ some folder → Good
  added d h = let e : folder ≡ path ++ (folder_delims ∷ []) = cc in ((path, e), inl (d, inr e))

  complete :
      (pos : ℕ)
      → is_folder path ≡ true
      → LastAt folder_delims path pos
      → (suc pos == length path) ≡ true
      → some path ≡ some folder
      → Good
  complete pos d (split, _, _) last h =
      let e : folder ≡ path = cc in
      let whole : take (suc pos) path ≡ path =
        take_all (suc pos) path (omega (arith, (==_iff (suc pos) (length path)).0 last)) in
      ((take pos path, e ∙ sym whole ∙ split), inl (d, inl e))

  of_folder :
      (r : Option ℕ)
      → find_last_of folder_delims path ≡ r
      → is_folder path ≡ true
      → elim r [
        | none ↦ if length path == 0 then some path else some (path ++ (folder_delims ∷ []))
        | some pos ↦
            if suc pos == length path then some path else some (path ++ (folder_delims ∷ []))
      ]
        ≡ some folder
      → Good
  of_folder none e d h = elim (Bool-cases (length path == 0)) [
    | inl z ↦ absurd (empty path z d)
    | inr n ↦ added d (rw n at h)
  ]
    where
      empty : (t : Text) → (length t == 0) ≡ true → is_folder t ≡ true → ⊥
      empty [] k d₁ = cc
      empty (x ∷ xs) k d₁ = ground arith
  of_folder (some pos) e d h = elim (Bool-cases (suc pos == length path)) [
    | inl z ↦ complete pos d (find_last_of-some folder_delims path pos e) z (rw z at h)
    | inr n ↦ added d (rw n at h)
  ]

  of_file :
      (r : Option ℕ)
      → find_last_of folder_delims path ≡ r
      → is_folder path ≡ false
      → elim r [ none ↦ none | some pos ↦ some (take (suc pos) path) ] ≡ some folder
      → Good
  of_file none e d h = cc
  of_file (some pos) e d h =
      let (split, _, after) = find_last_of-some folder_delims path pos e in
      let same : folder ≡ take (suc pos) path = cc in
      (
        (take pos path, same ∙ split),
        inr (
          d,
          (
            drop (suc pos) path,
            sym (take-append-drop (suc pos) path) ∙ ap (λ t. t ++ drop (suc pos) path) (sym same),
            after,
          ),
        ),
      )

  -- The result of `GetFolderWithTailingDelimiter` ends in the delimiter; for a folder it is the path,
  -- with a delimiter added if that is missing, and for any other path its part up to the last one.
  pub get_folder_with_tailing_delimiter_lem :
      get_folder_with_tailing_delimiter is_folder path ≡ some folder
      → EndsInDelimiter folder × FolderOf is_folder path folder
  unfolding get_folder_with_tailing_delimiter
  get_folder_with_tailing_delimiter_lem h = elim (Bool-cases (is_folder path)) [
    | inl d ↦ of_folder (find_last_of folder_delims path) refl d (rw d at h)
    | inr d ↦ of_file (find_last_of folder_delims path) refl d (rw d at h)
  ]

parent_of_lem :
    (parent name : Text)
    → occurrences folder_delims name ≡ 0
    → name ≢ []
    → parent_of (parent ++ (folder_delims ∷ (name ++ (folder_delims ∷ []))))
      ≡ parent ++ (folder_delims ∷ [])
unfolding parent_of
parent_of_lem parent [] none_in some_name = absurd (some_name refl)
parent_of_lem parent (x ∷ name) none_in some_name =
    ap (λ t. up_to full (find_last_of folder_delims t)) searched
    ∙ ap (up_to full) (find_last_of_split folder_delims parent (x ∷ name) none_in)
    ∙ take-suc-append folder_delims parent ((x ∷ name) ++ (folder_delims ∷ []))
  where
    full : Text
    full = parent ++ (folder_delims ∷ ((x ∷ name) ++ (folder_delims ∷ [])))

    before : Text
    before = parent ++ (folder_delims ∷ (x ∷ name))

    long : 2 ≤ length full
    long = omega (
      arith,
      length-append parent (folder_delims ∷ ((x ∷ name) ++ (folder_delims ∷ []))),
      length-append (x ∷ name) (folder_delims ∷ []),
    )

    regroup : full ≡ before ++ (folder_delims ∷ [])
    regroup = sym (append_assoc parent (folder_delims ∷ (x ∷ name)) (folder_delims ∷ []))

    count_before : length full - 1 ≡ length before
    count_before = omega (arith, ap length regroup, length-append before (folder_delims ∷ []))

    shorter : before_last full ≡ take (length full - 1) full
    shorter = ground (arith, long)

    searched : before_last full ≡ before
    searched =
        shorter ∙ ap₂ take count_before regroup ∙ take-length-append before (folder_delims ∷ [])

-- The parent of a folder is what stands before its last component.
pub get_parent_folder_lem :
    (is_folder : Text → Bool) (parent name path : Text)
    → occurrences folder_delims name ≡ 0
    → name ≢ []
    → get_folder_with_tailing_delimiter is_folder path
      ≡ some (parent ++ (folder_delims ∷ (name ++ (folder_delims ∷ []))))
    → get_parent_folder is_folder path ≡ parent ++ (folder_delims ∷ [])
unfolding get_parent_folder
get_parent_folder_lem is_folder parent name path none_in some_name h =
    rw (h, get_parent_folder) (parent_of_lem parent name none_in some_name)
