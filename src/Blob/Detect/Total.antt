-- ===== src/Blob/Detect/Total.antt =====
-- UpdateBlob returns, and the blobs that it lists are active.
use rpi_webrtc_streamer.Base.{
  ℕ, zero, suc, ◌-◌, ◌*◌, ◌≤◌, ◌<◌, ◌≡◌, refl, sym, ap, subst, ◌∙◌, inl, inr, Bool, Option, none,
  some, List, [], ◌∷◌, arith, ltb, if◌then◌else◌, ltb→lt, Bool-cases, All,
}
use rpi_webrtc_streamer.Blob.Search.{Cells, cell}
use rpi_webrtc_streamer.Blob.Search.Grid.{live_le}
use rpi_webrtc_streamer.Blob.Search.Loop.{search_connected_blob-Fills}
use rpi_webrtc_streamer.Blob.Ids.{RaspiMotionBlob, blank_cells, acquire_blob_id}
use rpi_webrtc_streamer.Blob.Ids.Acquire.{Acquired, acquire_blob_id-Acquired}
use rpi_webrtc_streamer.Blob.Detect.{
  search_blob, keep_searched, update_acquired, update_point, update_row, update_rows, merge_rows,
  merge_blob, merge_active_blob, tracking_blob, start_update, update_blob,
}
use rpi_webrtc_streamer.Blob.Detect.Listed.{Listed, Ready, Same, search_blob_lem, searched-Same}

-- A step that returns, in a picture of the same size.
abbrev Goes : RaspiMotionBlob → Option RaspiMotionBlob → Type 0
Goes s r = (s' : RaspiMotionBlob) × (r ≡ some s') × Ready s' × (s'.mvx ≡ s.mvx) × (s'.mvy ≡ s.mvy)

Same-Goes : (s s' : RaspiMotionBlob) → Same s s' → Goes s (some s')
Same-Goes s s' (v, ex, ey) = (s', refl, v, ex, ey)

update_acquired-Goes :
    (x y : ℕ) (s : RaspiMotionBlob) (a : Option (ℕ × RaspiMotionBlob))
    → x < s.mvx
    → y < s.mvy
    → Ready s
    → 0 < s.source (cell s.mvx x y)
    → Acquired s 254 2 a
    → Goes s (update_acquired x y s a)
unfolding update_acquired keep_searched
update_acquired-Goes x y s none in_x in_y v motion acquired = Same-Goes s s (v, refl, refl)
update_acquired-Goes x y s (some (id, s₁)) in_x in_y v motion (low, high, free, _, same) =
    let (r, ends, _) =
      search_connected_blob-Fills s.mvx s.mvy id (s.mvx * s.mvy) x y s.source blank_cells v.small_x
        v.small_y (omega arith) in_x in_y motion (λ c. refl) (live_le s.source (s.mvx * s.mvy)) in
    subst (λ t. Goes s (keep_searched id (search_blob x y id t))) (sym same)
      (subst (λ t. Goes s (keep_searched id t)) (sym (search_blob_lem s id x y r ends))
        (Same-Goes s _ (searched-Same s id x y r v free low high)))

-- What UpdateBlob does at a point, if the point has motion or not.
abbrev GoesIf : RaspiMotionBlob → ℕ → ℕ → Bool → Type 0
GoesIf s x y b = Goes s (if b then update_acquired x y s (acquire_blob_id s) else some s)

update_point-Goes :
    (x y : ℕ) (s : RaspiMotionBlob) → x < s.mvx → y < s.mvy → Ready s → Goes s (update_point x y s)
unfolding update_point
update_point-Goes x y s in_x in_y v = elim (Bool-cases (ltb 0 (s.source (cell s.mvx x y)))) [
  | inl e ↦ subst (GoesIf s x y) (sym e) (
      update_acquired-Goes x y s (acquire_blob_id s) in_x in_y v (ltb→lt _ _ e)
        (acquire_blob_id-Acquired s))
  | inr e ↦ subst (GoesIf s x y) (sym e) (Same-Goes s s (v, refl, refl))
]

then-Goes :
    (s : RaspiMotionBlob) (r : Option RaspiMotionBlob)
    (next : RaspiMotionBlob → Option RaspiMotionBlob)
    → Goes s r
    → ((s' : RaspiMotionBlob) → Same s s' → Goes s' (next s'))
    → Goes s (elim r [ none ↦ none | some s' ↦ next s' ])
then-Goes s r next (s', e, v, ex, ey) go =
    let (t, e', w, fx, fy) = go s' (v, ex, ey) in
    (
      t,
      ap (λ (o : Option RaspiMotionBlob). elim o [ none ↦ none | some s' ↦ next s' ]) e ∙ e',
      w,
      fx ∙ ex,
      fy ∙ ey,
    )

update_row-Goes :
    (n y : ℕ) (s : RaspiMotionBlob) → n ≤ s.mvx → y < s.mvy → Ready s → Goes s (update_row n y s)
unfolding update_row
update_row-Goes zero y s le in_y v = Same-Goes s s (v, refl, refl)
update_row-Goes (suc n) y s le in_y v =
    then-Goes s (update_point (s.mvx - suc n) y s) (update_row n y)
      (update_point-Goes (s.mvx - suc n) y s (omega arith) in_y v)
      λ s' (v', ex, ey). update_row-Goes n y s' (omega arith) (omega arith) v'

update_rows-Goes : (n : ℕ) (s : RaspiMotionBlob) → n ≤ s.mvy → Ready s → Goes s (update_rows n s)
unfolding update_rows
update_rows-Goes zero s le v = Same-Goes s s (v, refl, refl)
update_rows-Goes (suc n) s le v =
    then-Goes s (update_row s.mvx (s.mvy - suc n) s) (update_rows n)
      (update_row-Goes s.mvx (s.mvy - suc n) s (omega arith) (omega arith) v)
      λ s' (v', ex, ey). update_rows-Goes n s' (omega arith) v'

-- MergeActiveBlob on listed blobs returns, and leaves the blobs as they are.
abbrev Merges : RaspiMotionBlob → Option RaspiMotionBlob → Type 0
Merges s r = (s' : RaspiMotionBlob) × (r ≡ some s') × (s'.blob_list ≡ s.blob_list)

merge_blob-Merges :
    (id : ℕ) (s : RaspiMotionBlob) → Listed s.blob_list id → Merges s (merge_blob id s)
unfolding merge_blob
merge_blob-Merges id s (_, _, on, (b, buffer)) = (
  record s {
    extracted =
        (merge_rows b (s.blob_list id).size s.mvx s.mvy (s.mvy - (s.blob_list id).sy)
          (0, s.extracted)).1;
  },
  ground arith,
  refl,
)

merge_active_blob-Merges :
    (ids : List ℕ) (s : RaspiMotionBlob)
    → All (Listed s.blob_list) ids
    → Merges s (merge_active_blob ids s)
unfolding merge_active_blob
merge_active_blob-Merges [] s h = (s, refl, refl)
merge_active_blob-Merges (id ∷ ids) s h =
    let (s', e, same) = merge_blob-Merges id s h.0 in
    let (t, e', same') =
      merge_active_blob-Merges ids s' (subst (λ l. All (Listed l) ids) (sym same) h.1) in
    (
      t,
      ap
            (λ (o : Option RaspiMotionBlob). elim o [
              | none ↦ none
              | some s' ↦ merge_active_blob ids s'
            ])
            e
          ∙ e',
      same' ∙ same,
    )

-- In a grid of at most 256 by 256 UpdateBlob returns, from any state. When its search is over, the
-- ids in the list of active blobs are between 2 and 255, and their blobs have the active status and
-- a buffer, so that MergeActiveBlob never comes to its internal error.
pub update_blob-Listed :
    (motion : Cells) (s : RaspiMotionBlob)
    → s.mvx ≤ 256
    → s.mvy ≤ 256
    → (s₁ : RaspiMotionBlob) × (s₂ : RaspiMotionBlob) × (update_rows s.mvy (start_update motion s)
        ≡ some s₁)
      × All (Listed s₁.blob_list) s₁.active_blob_list
      × (merge_active_blob s₁.active_blob_list s₁ ≡ some s₂)
      × (update_blob motion s ≡ some (tracking_blob s₂))
unfolding update_blob
update_blob-Listed motion s small_x small_y =
    let ready : Ready (start_update motion s) = record {
      small_x = small_x;
      small_y = small_y;
      listed = tt;
    } in
    let (s₁, e₁, v₁, _, _) = update_rows-Goes s.mvy (start_update motion s) (omega arith) ready in
    let (s₂, e₂, _) = merge_active_blob-Merges s₁.active_blob_list s₁ v₁.listed in
    (s₁, s₂, e₁, v₁.listed, e₂, ground arith)
