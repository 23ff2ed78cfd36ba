-- ===== src/Blob/Detect.antt =====
-- RaspiMotionBlob::UpdateBlob, MergeActiveBlob, TrackingBlob and the queries of
-- src/raspi_motionblob.cc. `none` is an access through a null pointer, or fuel that ran out in the
-- search, whose fuel is the number of cells. A row's first cell is an uint16_t in MergeActiveBlob
-- and TrackingBlob; mvy is at most 65535, so that the row numbers do not wrap.
pub mod Listed
pub mod Total
use rpi_webrtc_streamer.Base.{
  ℕ, zero, suc, ◌+◌, ◌-◌, ◌*◌, ◌%◌, ◌^◌, max, not, ◌&&◌, Option, none, some, List, [], ◌∷◌, ◌++◌,
  ltb, leb, ◌==◌, if◌then◌else◌, count, occ, update,
}
use rpi_webrtc_streamer.Blob.Search.{
  Cells, Searched, cell, byte_mod, blob_id_not_used, search_connected_blob,
}
use rpi_webrtc_streamer.Blob.Ids.{
  MotionBlobStatus, active, MotionBlob, RaspiMotionBlob, blob_id_min, blank_cells, is_active,
  acquire_blob_id, unacquire_blob_id,
}

-- The search for the blob `id`, on the state.
unfoldable pub search_blob : ℕ → ℕ → ℕ → RaspiMotionBlob → Option (ℕ × RaspiMotionBlob)
search_blob x y id s = elim (s.blob_list id).blob [
  | none ↦ none
  | some b ↦ elim (search_connected_blob s.mvx s.mvy id (s.mvx * s.mvy) x y s.source b) [
    | none ↦ none
    | some r ↦ some (
      r.blob_size,
      record s {
        source = r.source_left;
        blob_list = update s.blob_list id (record (s.blob_list id) {
          sx = x % byte_mod;
          sy = y % byte_mod;
          blob = some r.blob_marked;
        });
      },
    )
  ]
]

-- The blob of the id is kept, if it is not too small.
unfoldable pub keep_blob : ℕ → ℕ → RaspiMotionBlob → RaspiMotionBlob
unfolding unacquire_blob_id
keep_blob id size s = if s.below_cancel_threshold size then unacquire_blob_id id s else record s {
  active_blob_list = s.active_blob_list ++ (id ∷ []);
  blob_list =
      update s.blob_list id
        (record (s.blob_list id) { status = active; size = size; update_counter = 1 });
}

unfoldable pub keep_searched : ℕ → Option (ℕ × RaspiMotionBlob) → Option RaspiMotionBlob
unfolding keep_blob
keep_searched id none = none
keep_searched id (some (size, s)) = some (keep_blob id size s)

-- What UpdateBlob does at a point with motion, with the result of AccquireBlobId.
unfoldable pub update_acquired :
    ℕ → ℕ → RaspiMotionBlob → Option (ℕ × RaspiMotionBlob) → Option RaspiMotionBlob
unfolding search_blob keep_searched
update_acquired x y s none = some s
update_acquired x y s (some (id, s₁)) = keep_searched id (search_blob x y id s₁)

-- The body of the loops of UpdateBlob.
unfoldable pub update_point : ℕ → ℕ → RaspiMotionBlob → Option RaspiMotionBlob
unfolding acquire_blob_id update_acquired
update_point x y s =
    if ltb 0 (s.source (cell s.mvx x y)) then update_acquired x y s (acquire_blob_id s) else some s

-- The last `n` points of the row `y`, and the last `n` rows.
unfoldable pub update_row : ℕ → ℕ → RaspiMotionBlob → Option RaspiMotionBlob
unfolding update_point
update_row zero y s = some s
update_row (suc n) y s = elim (update_point (s.mvx - suc n) y s) [
  | none ↦ none
  | some s' ↦ update_row n y s'
]

unfoldable pub update_rows : ℕ → RaspiMotionBlob → Option RaspiMotionBlob
unfolding update_row
update_rows zero s = some s
update_rows (suc n) s = elim (update_row s.mvx (s.mvy - suc n) s) [
  | none ↦ none
  | some s' ↦ update_rows n s'
]

-- The first cell of a row, as an uint16_t.
abbrev pub base_of : ℕ → ℕ → ℕ
base_of mvx y = y * mvx % 2 ^ 16

-- The cells of a blob in the last `n` columns of a row go to the picture, and are counted.
unfoldable pub merge_row : Cells → ℕ → ℕ → ℕ → ℕ × Cells → ℕ × Cells
merge_row blob base mvx zero (size, extracted) = (size, extracted)
merge_row blob base mvx (suc n) (size, extracted) =
    let c = base + (mvx - suc n) in
    merge_row blob base mvx n
      (if ltb 0 (blob c) then (size + 1, update extracted c (blob c)) else (size, extracted))

-- The last `n` rows, until the blob's size is reached.
unfoldable pub merge_rows : Cells → ℕ → ℕ → ℕ → ℕ → ℕ × Cells → ℕ × Cells
unfolding merge_row
merge_rows blob size mvx mvy zero r = r
merge_rows blob size mvx mvy (suc n) r =
    let rest =
      merge_rows blob size mvx mvy n (merge_row blob (base_of mvx (mvy - suc n)) mvx mvx r) in
    if r.0 == size then r else rest

unfoldable pub merge_blob : ℕ → RaspiMotionBlob → Option RaspiMotionBlob
unfolding merge_rows
merge_blob id s =
    if is_active (s.blob_list id).status
    then elim (s.blob_list id).blob [
      | none ↦ none
      | some b ↦ some (record s {
        extracted =
            (merge_rows b (s.blob_list id).size s.mvx s.mvy (s.mvy - (s.blob_list id).sy)
              (0, s.extracted)).1;
      })
    ]
    else some s

unfoldable pub merge_active_blob : List ℕ → RaspiMotionBlob → Option RaspiMotionBlob
unfolding merge_blob
merge_active_blob [] s = some s
merge_active_blob (id ∷ ids) s = elim (merge_blob id s) [
  | none ↦ none
  | some s' ↦ merge_active_blob ids s'
]

-- The body of the loops of TrackingBlob, at the cell `c`.
unfoldable pub track_cell : ℕ → List ℕ × RaspiMotionBlob → List ℕ × RaspiMotionBlob
track_cell c (previous, s) =
    let active_bid = s.extracted c in
    let previous_bid = s.extracted_previous c in
    let active_blob = s.blob_list active_bid in
    (
      if ltb 0 previous_bid && (occ previous_bid previous == 0)
          then previous ++ (previous_bid ∷ [])
          else previous,
      if not (active_bid == blob_id_not_used)
            && (not (previous_bid == blob_id_not_used)
                && (is_active active_blob.status && is_active (s.blob_list previous_bid).status))
          then record s {
            blob_list = update s.blob_list active_bid (record active_blob {
              overlap_size = active_blob.overlap_size + 1;
              update_counter =
                  max active_blob.update_counter ((s.blob_list previous_bid).update_counter + 1);
            });
          }
          else s,
    )

unfoldable pub track_row : ℕ → ℕ → List ℕ × RaspiMotionBlob → List ℕ × RaspiMotionBlob
unfolding track_cell
track_row zero base r = r
track_row (suc n) base r = track_row n base (track_cell (base + (r.1.mvx - suc n)) r)

unfoldable pub track_rows : ℕ → List ℕ × RaspiMotionBlob → List ℕ × RaspiMotionBlob
unfolding track_row
track_rows zero r = r
track_rows (suc n) r = track_rows n (track_row r.1.mvx (base_of r.1.mvx (r.1.mvy - suc n)) r)

unfoldable pub unacquire_all : List ℕ → RaspiMotionBlob → RaspiMotionBlob
unfolding unacquire_blob_id
unacquire_all [] s = s
unacquire_all (id ∷ ids) s = unacquire_all ids (unacquire_blob_id id s)

unfoldable pub tracking_blob : RaspiMotionBlob → RaspiMotionBlob
unfolding track_rows unacquire_all
tracking_blob s =
    let (previous, tracked) = track_rows s.mvy ([], s) in unacquire_all previous tracked

-- UpdateBlob with a picture `motion`.
abbrev pub start_update : Cells → RaspiMotionBlob → RaspiMotionBlob
start_update motion s = record s {
  extracted_previous = s.extracted;
  extracted = blank_cells;
  source = motion;
  active_blob_list = [];
}

unfoldable pub update_blob : Cells → RaspiMotionBlob → Option RaspiMotionBlob
unfolding update_rows merge_active_blob tracking_blob
update_blob motion s = elim (update_rows s.mvy (start_update motion s)) [
  | none ↦ none
  | some s₁ ↦ elim (merge_active_blob s₁.active_blob_list s₁) [
    | none ↦ none
    | some s₂ ↦ some (tracking_blob s₂)
  ]
]

unfoldable pub blob_image_cell : RaspiMotionBlob → ℕ → ℕ
blob_image_cell s c =
    if leb blob_id_min (s.extracted c)
      && ltb s.blob_tracking_threshold (s.blob_list (s.extracted c)).update_counter
    then 255
    else 0

unfoldable pub get_active_blob_count : RaspiMotionBlob → ℕ
get_active_blob_count s =
    count (λ id. ltb s.blob_tracking_threshold (s.blob_list id).update_counter) s.active_blob_list

abbrev pub max_update_count : RaspiMotionBlob → ℕ → List ℕ → ℕ
max_update_count s highest [] = highest
max_update_count s highest (id ∷ ids) =
    max_update_count s (max (s.blob_list id).update_counter highest) ids

unfoldable pub get_active_blob_update_count : RaspiMotionBlob → ℕ
get_active_blob_update_count s = max_update_count s 0 s.active_blob_list
