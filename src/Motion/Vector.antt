-- ===== src/Motion/Vector.antt =====
-- RaspiMotionVector of src/raspi_motionvector.cc: the history of the motion vectors and the reports to
-- the observers. A history has 32 bits, the last picture in the highest; a vector of integers has a
-- magnitude of at least one where it is not zero. The float image of the motion, its number of active
-- points, and what the blob analysis then says are arguments.
pub mod Reports
use rpi_webrtc_streamer.Base.{
  ℕ, ◌+◌, ◌*◌, ◌/◌, ◌^◌, Bool, true, not, ◌&&◌, List, [], ◌∷◌, ◌++◌, ltb, leb, ◌==◌, if◌then◌else◌,
  count, add_size,
}

pub record RaspiMotionVector : Type 0 where
  pub mvx : ℕ
  pub mvy : ℕ
  pub blob_enable : Bool
  pub has_blob_observer : Bool
  pub has_imv_observer : Bool
  pub candidate : ℕ → ℕ
  pub update_counter : ℕ
  pub initial_coolingdown : ℕ
  pub enable_observer_callback : Bool
  pub blob_active_count : ℕ
  pub blob_active_updates : ℕ

-- A picture, and what is computed of it outside: which vectors are not zero, the number of active
-- points, GetActiveBlobCount and GetActiveBlobUpdateCount.
pub record Picture : Type 0 where
  pub moves : ℕ → Bool
  pub motion_active : ℕ
  pub new_blob_active_count : ℕ
  pub new_blob_active_updates : ℕ

pub data Report : Type 0 where
  active_points_report : ℕ → ℕ → Report
  triggered_report : ℕ → Report
  cleared_report : ℕ → Report

-- binary_oper_
abbrev pub binary_oper : ℕ
binary_oper = 2 ^ 31

-- A history of 32 bits is shifted, and the highest bit, which is then 0, is set for a motion.
abbrev pub shift_in : Bool → ℕ → ℕ
shift_in moved history = if moved then history / 2 + binary_oper else history / 2

-- The part of Analyse that counts pictures.
unfoldable pub count_picture : RaspiMotionVector → RaspiMotionVector
count_picture s =
    let counted = record s { update_counter = add_size s.update_counter 1 } in
    if not s.enable_observer_callback && ltb s.initial_coolingdown (add_size s.update_counter 1)
    then record counted { enable_observer_callback = true }
    else counted

-- The part of Analyse that reports the number of blobs.
unfoldable pub report_blobs : Picture → RaspiMotionVector → List Report × RaspiMotionVector
report_blobs p s =
    let count = p.new_blob_active_count in
    let updated = record s { blob_active_updates = p.new_blob_active_updates } in
    if not (s.blob_enable && s.has_blob_observer)
    then ([], s)
    else (if s.enable_observer_callback && not (count == s.blob_active_count)
        then (
          (if count == 0 then cleared_report s.blob_active_updates else triggered_report count)
              ∷ [],
          record updated { blob_active_count = count },
        )
        else ([], updated))

unfoldable pub analyse : Picture → RaspiMotionVector → List Report × RaspiMotionVector
unfolding count_picture report_blobs
analyse p s =
    let s₁ = record s { candidate = λ c. shift_in (p.moves c) (s.candidate c) } in
    let points =
      if s.enable_observer_callback && s.has_imv_observer
      then active_points_report (s.mvx * s.mvy) p.motion_active ∷ []
      else [] in
    let (blobs, s₂) = report_blobs p (count_picture s₁) in (points ++ blobs, s₂)

unfoldable pub analyse_all : List Picture → RaspiMotionVector → List Report × RaspiMotionVector
unfolding analyse
analyse_all [] s = ([], s)
analyse_all (p ∷ ps) s =
    let (reports, s₁) = analyse p s in let (more, s₂) = analyse_all ps s₁ in (reports ++ more, s₂)

-- A cell of GetIMVImage: the highest bit of the history.
unfoldable pub imv_image_cell : RaspiMotionVector → ℕ → ℕ
imv_image_cell s c = if leb binary_oper (s.candidate c) then 255 else 0
