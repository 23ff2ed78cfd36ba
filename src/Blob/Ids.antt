-- ===== src/Blob/Ids.antt =====
-- RaspiMotionBlob of src/raspi_motionblob.cc: its state and the ids of its blobs. Counters of the type
-- int are numbers, which grow by one for each picture. The cancel threshold is a float: only its test
-- against a size is kept. Buffers have mvx * mvy cells; `none` is a null pointer.
pub mod Acquire
use rpi_webrtc_streamer.Base.{
  ℕ, zero, suc, ◌-◌, Bool, true, false, Option, none, some, List, if◌then◌else◌, update,
}
use rpi_webrtc_streamer.Blob.Search.{Cells}

pub data MotionBlobStatus : Type 0 where
  unused : MotionBlobStatus
  collecting : MotionBlobStatus
  active : MotionBlobStatus

pub record MotionBlob : Type 0 where
  pub sx : ℕ
  pub sy : ℕ
  pub status : MotionBlobStatus
  pub size : ℕ
  pub overlap_size : ℕ
  pub update_counter : ℕ
  pub blob : Option Cells

pub record RaspiMotionBlob : Type 0 where
  pub mvx : ℕ
  pub mvy : ℕ
  pub below_cancel_threshold : ℕ → Bool
  pub blob_tracking_threshold : ℕ
  pub extracted : Cells
  pub extracted_previous : Cells
  pub source : Cells
  pub blob_list : ℕ → MotionBlob
  pub active_blob_list : List ℕ

abbrev pub blob_id_min : ℕ
blob_id_min = 2

abbrev pub max_blob_list_size : ℕ
max_blob_list_size = 256

abbrev pub blank_cells : Cells
blank_cells c = 0

abbrev pub is_unused : MotionBlobStatus → Bool
is_unused unused = true
is_unused collecting = false
is_unused active = false

abbrev pub is_active : MotionBlobStatus → Bool
is_active unused = false
is_active collecting = false
is_active active = true

-- The blob of an id that is acquired.
abbrev pub collecting_blob : MotionBlob → MotionBlob
collecting_blob b = record b {
  status = collecting;
  size = 0;
  update_counter = 0;
  overlap_size = 0;
  blob = some blank_cells;
}

-- The loop of AccquireBlobId, for `n` ids from `bid` on.
unfoldable pub acquire_from : ℕ → ℕ → RaspiMotionBlob → Option (ℕ × RaspiMotionBlob)
acquire_from zero bid s = none
acquire_from (suc n) bid s =
    let rest = acquire_from n (suc bid) s in
    if is_unused (s.blob_list bid).status
    then some
        (bid, record s { blob_list = update s.blob_list bid (collecting_blob (s.blob_list bid)) })
    else rest

unfoldable pub acquire_blob_id : RaspiMotionBlob → Option (ℕ × RaspiMotionBlob)
unfolding acquire_from
acquire_blob_id s = acquire_from (max_blob_list_size - blob_id_min) blob_id_min s

unfoldable pub unacquire_blob_id : ℕ → RaspiMotionBlob → RaspiMotionBlob
unacquire_blob_id id s = record s {
  blob_list = update s.blob_list id (record (s.blob_list id) { status = unused });
}
