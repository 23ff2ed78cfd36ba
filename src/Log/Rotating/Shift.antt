-- ===== src/Log/Rotating/Shift.antt =====
-- RotateFiles on the disk: every file moves to the next index.
use rpi_webrtc_streamer.Base.{
  ℕ, zero, suc, ◌+◌, ◌<◌, ◌≡◌, refl, sym, ap, ap₂, subst, ◌∙◌, ◌≢◌, inl, inr, true, ◌&&◌, Option,
  none, some, List, [], ◌∷◌, arith, ℕ_discrete, if◌then◌else◌, Option-cases, update, update_self,
  update_ne, Text,
}
use rpi_webrtc_streamer.Log.Rotating.{Disk, Answers, is_file, move_file, move_files, delete_oldest}

-- The files of `n` indices from `i` on.
abbrev pub window : Disk → ℕ → ℕ → List (Option Text)
window disk i zero = []
window disk i (suc n) = disk i ∷ window disk (suc i) n

pub window_ext :
    (d d' : Disk) (i j n : ℕ)
    → ((k : ℕ) → k < n → d' (i + k) ≡ d (j + k))
    → window d' i n ≡ window d j n
window_ext d d' i j zero same = refl
window_ext d d' i j (suc n) same =
    ap₂ ◌∷◌ (ap d' (omega arith) ∙ same 0 (omega arith) ∙ ap d (omega arith)) (
      window_ext d d' (suc i) (suc j) n
        λ k lt. ap d' (omega arith) ∙ same (suc k) (omega arith) ∙ ap d (omega arith))

-- Calls of the operating system that all succeed.
pub record AllOk (w : Answers) : Type 0 where
  pub deletes : w.delete_ok ≡ true
  pub moves : (i : ℕ) → w.move_ok i ≡ true
  pub opens : w.open_ok ≡ true
  pub writes : w.write_ok ≡ true
  pub flushes : w.flush_ok ≡ true

-- One step of the loop: the file at `i`, if there is one, is now at the next index, which was free.
abbrev moved : Answers → ℕ → Disk → Disk
moved w i disk = if is_file disk i && w.move_ok i then move_file disk i else disk

record Moved (i : ℕ) (disk disk' : Disk) : Type 0 where
  there : disk' (suc i) ≡ disk i
  free : disk' i ≡ none
  others : (j : ℕ) → j ≢ i → j ≢ suc i → disk' j ≡ disk j

move_one : (i : ℕ) (disk : Disk) → Moved i disk (move_file disk i)
move_one i disk = record {
  there = update_self (update disk i none) (suc i) (disk i);
  free =
      update_ne (update disk i none) (suc i) i (disk i) (λ e. omega arith)
      ∙ update_self disk i none;
  others = λ j n m. update_ne (update disk i none) (suc i) j (disk i) m ∙ update_ne disk i j none n;
}

moved_step :
    (w : Answers)
    → AllOk w
    → (i : ℕ) (disk : Disk) → disk (suc i) ≡ none
    → Moved i disk (moved w i disk)
moved_step w ok i disk free = elim (Option-cases (disk i)) [
  | inl e ↦
      subst (Moved i disk) (sym (stays e))
        (record { there = free ∙ sym e; free = e; others = λ j n m. refl })
  | inr (t, e) ↦ subst (Moved i disk) (sym (moves t e)) (move_one i disk)
]
  where
    stays : disk i ≡ none → moved w i disk ≡ disk
    stays e = ground arith

    moves : (t : Text) → disk i ≡ some t → moved w i disk ≡ move_file disk i
    moves t e = ground (arith, ok.moves i)

pub record Shifted (r : ℕ) (disk disk' : Disk) : Type 0 where
  pub shifted : (i : ℕ) → i < r → disk' (suc i) ≡ disk i
  pub above : (i : ℕ) → r < i → disk' i ≡ disk i

pub move_files-Shifted :
    (w : Answers)
    → AllOk w
    → (r : ℕ) (disk : Disk) → disk r ≡ none
    → Shifted r disk (move_files w r disk)
unfolding move_files
move_files-Shifted w ok zero disk free = record {
  shifted = λ i lt. absurd (omega arith);
  above = λ i gt. refl;
}
move_files-Shifted w ok (suc r) disk free =
    let step = moved_step w ok r disk free in
    let rest = move_files-Shifted w ok r (moved w r disk) step.free in
    record {
      shifted = λ i lt. elim (ℕ_discrete i r) [
        | yes e ↦
            rest.above (suc i) (omega arith)
            ∙ ap (λ k. moved w r disk (suc k)) e
            ∙ step.there
            ∙ ap disk (sym e)
        | no n ↦ rest.shifted i (grind arith) ∙ step.others i n (λ e. omega arith)
      ];
      above =
          λ i gt. rest.above i (omega arith) ∙ step.others i (λ e. omega arith) (λ e. omega arith);
    }

record Deleted (r : ℕ) (disk disk' : Disk) : Type 0 where
  gone : disk' r ≡ none
  others : (i : ℕ) → i ≢ r → disk' i ≡ disk i

delete_oldest-Deleted :
    (w : Answers) → AllOk w → (r : ℕ) (disk : Disk) → Deleted r disk (delete_oldest w r disk)
unfolding delete_oldest
delete_oldest-Deleted w ok r disk = elim (Option-cases (disk r)) [
  | inl e ↦ subst (Deleted r disk) (sym (stays e)) (record { gone = e; others = λ i n. refl })
  | inr (t, e) ↦
      subst (Deleted r disk) (sym (goes t e))
        (record { gone = update_self disk r none; others = λ i n. update_ne disk r i none n })
]
  where
    stays : disk r ≡ none → delete_oldest w r disk ≡ disk
    stays e = ground arith

    goes : (t : Text) → disk r ≡ some t → delete_oldest w r disk ≡ update disk r none
    goes t e = ground (arith, ok.deletes)

-- The files after the first are those before, less the last.
pub delete_move_window :
    (w : Answers)
    → AllOk w
    → (r : ℕ) (disk : Disk) → window (move_files w r (delete_oldest w r disk)) 1 r ≡ window disk 0 r
delete_move_window w ok r disk =
    let gone = delete_oldest-Deleted w ok r disk in
    let moves = move_files-Shifted w ok r (delete_oldest w r disk) gone.gone in
    window_ext disk _ 1 0 r λ k lt.
      ap (move_files w r (delete_oldest w r disk)) (omega arith)
      ∙ moves.shifted k lt
      ∙ gone.others k (λ e. omega arith)
      ∙ ap disk (omega arith)
