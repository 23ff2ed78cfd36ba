-- ===== src/Motion/Vector/Reports.antt =====
-- The order of the reports of RaspiMotionVector.
use rpi_webrtc_streamer.Base.{
  ℕ, ◌*◌, ◌^◌, ◌<◌, ◌≡◌, refl, sym, ap, subst, ◌∙◌, ◌≢◌, Bool, true, false, not, ◌&&◌, List, [],
  ◌∷◌, ◌++◌, arith, leb, ◌==◌, if◌then◌else◌, ==_iff, if_cases, count,
}
use rpi_webrtc_streamer.Motion.Vector.{
  RaspiMotionVector, Picture, Report, active_points_report, triggered_report, cleared_report,
  binary_oper, shift_in, count_picture, report_blobs, analyse, analyse_all, imv_image_cell,
}

-- Reports that may follow when `count` blobs were reported last: a trigger tells a number that is
-- new and not zero, and a clearing comes only after a trigger.
abbrev pub IsConsistent : ℕ → List Report → Type 0
IsConsistent count [] = Unit
IsConsistent count (active_points_report total active ∷ rs) = IsConsistent count rs
IsConsistent count (triggered_report n ∷ rs) = (0 < n) × (n ≢ count) × IsConsistent n rs
IsConsistent count (cleared_report n ∷ rs) = (0 < count) × IsConsistent 0 rs

-- The number of blobs that a list of reports leaves.
abbrev pub last_count : ℕ → List Report → ℕ
last_count count [] = count
last_count count (active_points_report total active ∷ rs) = last_count count rs
last_count count (triggered_report n ∷ rs) = last_count n rs
last_count count (cleared_report n ∷ rs) = last_count 0 rs

IsConsistent-append :
    (count : ℕ) (rs qs : List Report)
    → IsConsistent count rs
    → IsConsistent (last_count count rs) qs
    → IsConsistent count (rs ++ qs)
IsConsistent-append count [] qs a b = b
IsConsistent-append count (active_points_report total active ∷ rs) qs a b =
    IsConsistent-append count rs qs a b
IsConsistent-append count (triggered_report n ∷ rs) qs a b =
    (a.0, a.1, IsConsistent-append n rs qs a.2 b)
IsConsistent-append count (cleared_report n ∷ rs) qs a b = (a.0, IsConsistent-append 0 rs qs a.1 b)

last_count-append :
    (count : ℕ) (rs qs : List Report)
    → last_count count (rs ++ qs) ≡ last_count (last_count count rs) qs
last_count-append count [] qs = refl
last_count-append count (active_points_report total active ∷ rs) qs = last_count-append count rs qs
last_count-append count (triggered_report n ∷ rs) qs = last_count-append n rs qs
last_count-append count (cleared_report n ∷ rs) qs = last_count-append 0 rs qs

abbrev Follows : RaspiMotionVector → List Report × RaspiMotionVector → Type 0
Follows s r =
    IsConsistent s.blob_active_count r.0
    × (last_count s.blob_active_count r.0 ≡ r.1.blob_active_count)

count_picture_same :
    (s : RaspiMotionVector) → (count_picture s).blob_active_count ≡ s.blob_active_count
unfolding count_picture
count_picture_same s = ground arith

-- The branches of the report: not made, made of a change, and made of no blobs.
branches-Follows :
    (p : Picture) (s : RaspiMotionVector) (off changed zero_blobs : Bool)
    → (changed ≡ true → p.new_blob_active_count ≢ s.blob_active_count)
    → (p.new_blob_active_count == 0) ≡ zero_blobs
    → Follows s (
        if off
        then ([], s)
        else (if changed
            then (
              (if zero_blobs
                    then cleared_report s.blob_active_updates
                    else triggered_report p.new_blob_active_count)
                  ∷ [],
              record s {
                blob_active_updates = p.new_blob_active_updates;
                blob_active_count = p.new_blob_active_count;
              },
            )
            else ([], record s { blob_active_updates = p.new_blob_active_updates })))
branches-Follows p s true changed zero_blobs other z = (tt, refl)
branches-Follows p s false false zero_blobs other z = (tt, refl)
branches-Follows p s false true true other z =
    let none_left : p.new_blob_active_count ≡ 0 = (==_iff _ _).0 z in
    ((omega (arith, other refl), tt), sym none_left)
branches-Follows p s false true false other z = ((ground arith, other refl, tt), refl)

report_blobs-Follows : (p : Picture) (s : RaspiMotionVector) → Follows s (report_blobs p s)
unfolding report_blobs
report_blobs-Follows p s =
    branches-Follows p s (not (s.blob_enable && s.has_blob_observer))
      (s.enable_observer_callback && not (p.new_blob_active_count == s.blob_active_count))
      (p.new_blob_active_count == 0) (λ e. ground arith) refl

analyse-Follows : (p : Picture) (s : RaspiMotionVector) → Follows s (analyse p s)
unfolding analyse
analyse-Follows p s =
    let s₁ : RaspiMotionVector = record s {
      candidate = λ c. shift_in (p.moves c) (s.candidate c);
    } in
    let r = report_blobs p (count_picture s₁) in
    let (consistent, count) : IsConsistent s.blob_active_count r.0
        × (last_count s.blob_active_count r.0 ≡ r.1.blob_active_count) =
      subst (λ n. IsConsistent n r.0 × (last_count n r.0 ≡ r.1.blob_active_count))
        (count_picture_same s₁) (report_blobs-Follows p (count_picture s₁)) in
    if_cases
      (λ points.
        IsConsistent s.blob_active_count (points ++ r.0)
        × (last_count s.blob_active_count (points ++ r.0) ≡ r.1.blob_active_count))
      (s.enable_observer_callback && s.has_imv_observer)
      {x = active_points_report (s.mvx * s.mvy) p.motion_active ∷ []} {y = []} (consistent, count)
      (consistent, count)

-- For any pictures, the reports of blobs are consistent with the number that was reported before: a
-- trigger tells a number that is new and not zero, and a clearing comes only after a trigger; the
-- state keeps the number that was reported last.
pub analyse_all-Follows :
    (ps : List Picture) (s : RaspiMotionVector)
    → IsConsistent s.blob_active_count (analyse_all ps s).0
      × (last_count s.blob_active_count (analyse_all ps s).0
          ≡ (analyse_all ps s).1.blob_active_count)
unfolding analyse_all
analyse_all-Follows [] s = (tt, refl)
analyse_all-Follows (p ∷ ps) s =
    let (first, count) = analyse-Follows p s in
    let (rest, end) = analyse_all-Follows ps (analyse p s).1 in
    (
      IsConsistent-append s.blob_active_count (analyse p s).0 _ first
          (subst (λ n. IsConsistent n (analyse_all ps (analyse p s).1).0) (sym count) rest),
      last_count-append s.blob_active_count (analyse p s).0 _
          ∙ ap (λ n. last_count n (analyse_all ps (analyse p s).1).0) count
          ∙ end,
    )

abbrev pub white : Bool → ℕ
white b = if b then 255 else 0

analyse_candidate :
    (p : Picture) (s : RaspiMotionVector) (c : ℕ)
    → (analyse p s).1.candidate c ≡ shift_in (p.moves c) (s.candidate c)
unfolding analyse count_picture report_blobs
analyse_candidate p s c = ground arith

history_lem :
    (moved : Bool) (h : ℕ)
    → h < 2 ^ 32
    → (white (leb binary_oper (shift_in moved h)) ≡ white moved) × (shift_in moved h < 2 ^ 32)
history_lem true h small = (ground arith, ground arith)
history_lem false h small = (ground arith, ground arith)

-- A cell of the picture that GetIMVImage gives is white, 255, if the last picture had motion there, and else 0,
-- when the histories before it had 32 bits.
pub imv_image_cell-analyse :
    (p : Picture) (s : RaspiMotionVector) (c : ℕ)
    → s.candidate c < 2 ^ 32
    → (imv_image_cell (analyse p s).1 c ≡ white (p.moves c))
      × ((analyse p s).1.candidate c < 2 ^ 32)
unfolding analyse imv_image_cell
imv_image_cell-analyse p s c small =
    subst (λ h. (white (leb binary_oper h) ≡ white (p.moves c)) × (h < 2 ^ 32))
      (sym (analyse_candidate p s c)) (history_lem (p.moves c) (s.candidate c) small)
