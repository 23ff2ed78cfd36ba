-- ===== src/Blob/Tests.antt =====
-- Runs of the blob search on small pictures.
use rpi_webrtc_streamer.Base.{
  ℕ, zero, suc, ◌≡◌, refl, Option, none, some, List, [], ◌∷◌, arith, ltb, All,
}
use rpi_webrtc_streamer.Blob.Search.{
  Cells, Searched, search_connected_blob, search_loop, search_next, search_connected_neighbor,
  next_blobpoint,
}
use rpi_webrtc_streamer.Blob.Search.Grid.{live}
use rpi_webrtc_streamer.Blob.Ids.{unused, MotionBlob, RaspiMotionBlob}
use rpi_webrtc_streamer.Blob.Ids.Acquire.{Acquired, acquire_blob_id-Acquired}
use rpi_webrtc_streamer.Blob.Ids.{acquire_blob_id}
use rpi_webrtc_streamer.Blob.Detect.{
  update_rows, merge_active_blob, tracking_blob, start_update, update_blob, get_active_blob_count,
}
use rpi_webrtc_streamer.Blob.Detect.Listed.{Listed}
use rpi_webrtc_streamer.Blob.Detect.Total.{update_blob-Listed}
use rpi_webrtc_streamer.Blob.Search.Loop.{Fills, search_connected_blob-Fills}

abbrev pixel : List ℕ → Cells
pixel [] c = 0
pixel (v ∷ vs) zero = v
pixel (v ∷ vs) (suc c) = pixel vs c

-- Three columns and three rows, with an area of four points and a point apart.
abbrev picture : Cells
picture = pixel (1 ∷ 1 ∷ 0 ∷ 0 ∷ 1 ∷ 1 ∷ 1 ∷ 0 ∷ 0 ∷ [])

abbrev blank_blob : Cells
blank_blob c = 0

search_connected_blob-Fills_example :
    (s : Searched) × (search_connected_blob 3 3 2 9 1 0 picture blank_blob ≡ some s)
    × Fills 3 3 2 1 0 picture s
unfolding live
search_connected_blob-Fills_example =
    search_connected_blob-Fills 3 3 2 9 1 0 picture blank_blob (omega arith) (omega arith)
      (omega arith) (omega arith) (omega arith) (omega arith) (λ c. refl) (omega arith)

abbrev new_blob : MotionBlob
new_blob = record {
  sx = 0;
  sy = 0;
  status = unused;
  size = 0;
  overlap_size = 0;
  update_counter = 0;
  blob = none;
}

-- A blob of less than two points is dropped; a blob counts from its second picture on.
abbrev new_blobs : RaspiMotionBlob
new_blobs = record {
  mvx = 3;
  mvy = 3;
  below_cancel_threshold = λ n. ltb n 2;
  blob_tracking_threshold = 1;
  extracted = blank_blob;
  extracted_previous = blank_blob;
  source = blank_blob;
  blob_list = λ id. new_blob;
  active_blob_list = [];
}

update_blob-Listed_example :
    (s₁ : RaspiMotionBlob) × (s₂ : RaspiMotionBlob) × (update_rows 3
        (start_update picture new_blobs)
      ≡ some s₁)
    × All (Listed s₁.blob_list) s₁.active_blob_list
    × (merge_active_blob s₁.active_blob_list s₁ ≡ some s₂)
    × (update_blob picture new_blobs ≡ some (tracking_blob s₂))
update_blob-Listed_example = update_blob-Listed picture new_blobs (omega arith) (omega arith)

acquire_blob_id-Acquired_example : Acquired new_blobs 254 2 (acquire_blob_id new_blobs)
acquire_blob_id-Acquired_example = acquire_blob_id-Acquired new_blobs

-- The number of active blobs after the same picture comes twice.
abbrev count_after_two : Option RaspiMotionBlob → Option ℕ
count_after_two none = none
count_after_two (some s) = elim (update_blob picture s) [
  | none ↦ none
  | some t ↦ some (get_active_blob_count t)
]

tracked_once : count_after_two (update_blob picture new_blobs) ≡ some 1
unfolding update_blob get_active_blob_count search_connected_blob search_loop search_next
    search_connected_neighbor next_blobpoint
tracked_once = refl
