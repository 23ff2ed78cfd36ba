-- ===== src/Motion/DirLimit/Removal.antt =====
-- How much LimitTotalDirSizeTask deletes.
use rpi_webrtc_streamer.Base.{
  ℕ, ◌+◌, ◌≤◌, ◌<◌, ◌≡◌, refl, ap, subst, ◌≢◌, ◌∙◌, inl, inr, true, false, List, [], ◌∷◌, ◌++◌,
  arith, ltb, ltb→lt, Bool-cases, ◌-◌,
}
use native.Mathlib.Nat.{mod-eq_of_lt, add-mod_right}
use rpi_webrtc_streamer.Motion.DirLimit.{FileInfo, total_size, size_without, remove_files}

-- The sum of the sizes, without wrap-around.
abbrev pub sum : List FileInfo → ℕ
sum [] = 0
sum (f ∷ fs) = f.size + sum fs

pub total_size-sum :
    (size_mod : ℕ) (fs : List FileInfo) → sum fs < size_mod → total_size size_mod fs ≡ sum fs
unfolding total_size
total_size-sum size_mod [] h = refl
total_size-sum size_mod (f ∷ fs) h = rw (total_size-sum size_mod fs (omega arith)) (mod-eq_of_lt h)

size_without-sum :
    (size_mod : ℕ) (f : FileInfo) (fs : List FileInfo)
    → sum fs < size_mod
    → size_without size_mod (f.size + sum fs) f ≡ sum fs
unfolding size_without
size_without-sum size_mod f fs h =
    let plus : f.size + sum fs + size_mod - f.size ≡ sum fs + size_mod = omega arith in
    rw plus (add-mod_right (sum fs) size_mod ∙ mod-eq_of_lt h)

-- The oldest files go, in order, and as few as possible: what stays is within the limit but for its
-- first file, and before each deletion it was not.
pub record Trims (limit : ℕ) (fs deleted kept : List FileInfo) : Type 0 where
  pub in_order : deleted ++ kept ≡ fs
  pub enough : (f : FileInfo) (rest : List FileInfo) → kept ≡ f ∷ rest → sum rest ≤ limit
  pub not_more : deleted ≢ [] → limit < sum kept

Trims-stop :
    (limit : ℕ) (f : FileInfo) (fs : List FileInfo)
    → ltb limit (sum fs) ≡ false
    → Trims limit (f ∷ fs) [] (f ∷ fs)
Trims-stop limit f fs within = record {
  in_order = refl;
  enough = λ g rest e. subst (λ r. sum r ≤ limit) (tails e) (ground arith);
  not_more = λ h. absurd (h refl);
}
  where
    tails : {g : FileInfo} {rest : List FileInfo} → f ∷ fs ≡ g ∷ rest → fs ≡ rest
    tails e = cc

Trims-delete :
    (limit : ℕ) (f : FileInfo) (fs deleted kept : List FileInfo)
    → ltb limit (sum fs) ≡ true
    → Trims limit fs deleted kept
    → Trims limit (f ∷ fs) (f ∷ deleted) kept
Trims-delete limit f fs [] kept over t = record {
  in_order = ap (◌∷◌ f) t.in_order;
  enough = t.enough;
  not_more = λ h. omega (arith, ap sum t.in_order, ltb→lt limit (sum fs) over);
}
Trims-delete limit f fs (d ∷ ds) kept over t = record {
  in_order = ap (◌∷◌ f) t.in_order;
  enough = t.enough;
  not_more = λ h. t.not_more (λ e. cc);
}

-- With the exact total size of the files, which a size_t can hold, the loop deletes the oldest files
-- in order, stops where the files without the next one are within the limit, and deletes none after
-- which the files are within the limit.
pub remove_files-Trims :
    (size_mod limit : ℕ) (fs : List FileInfo)
    → sum fs < size_mod
    → let (deleted, kept) = remove_files size_mod limit (sum fs) fs in Trims limit fs deleted kept
unfolding remove_files
remove_files-Trims size_mod limit [] small = record {
  in_order = refl;
  enough = λ f rest e. cc;
  not_more = λ h. absurd (h refl);
}
remove_files-Trims size_mod limit (f ∷ fs) small =
    rw (size_without-sum size_mod f fs (omega arith)) (elim (Bool-cases (ltb limit (sum fs))) [
      | inl over ↦
          rw over
            (Trims-delete limit f fs _ _ over (remove_files-Trims size_mod limit fs (omega arith)))
      | inr within ↦ rw within (Trims-stop limit f fs within)
    ])

-- If the files, whose total size a size_t can hold, are above the limit, they still are when the
-- loop ends.
pub remove_files_above :
    (size_mod limit : ℕ) (fs : List FileInfo)
    → sum fs < size_mod
    → limit < sum fs
    → limit < sum (remove_files size_mod limit (sum fs) fs).1
remove_files_above size_mod limit fs small above =
    go (remove_files size_mod limit (sum fs) fs).0 (remove_files size_mod limit (sum fs) fs).1
      (remove_files-Trims size_mod limit fs small)
  where
    go : (deleted kept : List FileInfo) → Trims limit fs deleted kept → limit < sum kept
    go [] kept t = omega (arith, ap sum t.in_order, above)
    go (d ∷ ds) kept t = t.not_more (λ e. cc)
