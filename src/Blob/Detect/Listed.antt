-- ===== src/Blob/Detect/Listed.antt =====
-- The blobs of the list of active blobs, when a blob is acquired, searched, and kept or dropped.
use rpi_webrtc_streamer.Base.{
  ℕ, ◌*◌, ◌%◌, ◌≤◌, ◌<◌, ◌≡◌, refl, sym, ap, ◌∙◌, ◌≢◌, true, some, [], ◌∷◌, arith, if_cases, All,
  All-append, All-map, update, update_self, update_ne,
}
use rpi_webrtc_streamer.Blob.Search.{Cells, Searched, byte_mod, search_connected_blob}
use rpi_webrtc_streamer.Blob.Ids.{
  MotionBlobStatus, unused, collecting, active, MotionBlob, RaspiMotionBlob, blank_cells, is_unused,
  is_active, collecting_blob, unacquire_blob_id,
}
use rpi_webrtc_streamer.Blob.Detect.{search_blob, keep_blob}

-- An active blob with a buffer.
abbrev pub Listed : (ℕ → MotionBlob) → ℕ → Type 0
Listed blobs id =
    (2 ≤ id)
    × (id < 256)
    × (is_active (blobs id).status ≡ true)
    × ((b : Cells) × ((blobs id).blob ≡ some b))

pub record Ready (s : RaspiMotionBlob) : Type 0 where
  pub small_x : s.mvx ≤ 256
  pub small_y : s.mvy ≤ 256
  pub listed : All (Listed s.blob_list) s.active_blob_list

update-Listed :
    (blobs : ℕ → MotionBlob) (id j : ℕ) (v : MotionBlob)
    → j ≢ id
    → Listed blobs j
    → Listed (update blobs id v) j
update-Listed blobs id j v n (low, high, on, buffer) =
    let same = update_ne blobs id j v n in
    (
      low,
      high,
      ap (λ (b : MotionBlob). is_active b.status) same ∙ on,
      (buffer.0, ap (λ (b : MotionBlob). b.blob) same ∙ buffer.1),
    )

active_not_unused : (t : MotionBlobStatus) → is_active t ≡ true → is_unused t ≡ true → ⊥
active_not_unused unused a u = ground arith
active_not_unused collecting a u = ground arith
active_not_unused active a u = ground arith

-- The blobs that are listed, and are not `id`.
abbrev Others : ℕ → RaspiMotionBlob → Type 0
Others id s = All (λ j. Listed s.blob_list j × (j ≢ id)) s.active_blob_list

unused-Others :
    (s : RaspiMotionBlob) (id : ℕ)
    → is_unused (s.blob_list id).status ≡ true
    → Ready s
    → Others id s
unused-Others s id free v =
    All-map (Listed s.blob_list) _ s.active_blob_list
      (λ j l. (
        l,
        λ e.
            active_not_unused (s.blob_list id).status
              (ap (λ i. is_active (s.blob_list i).status) (sym e) ∙ l.2) free,
      ))
      v.listed

update-Others :
    (s : RaspiMotionBlob) (id : ℕ) (v : MotionBlob)
    → Others id s
    → Others id (record s { blob_list = update s.blob_list id v })
update-Others s id v others =
    All-map _ _ s.active_blob_list (λ j (l, n). (update-Listed s.blob_list id j v n l, n)) others

-- The blob is kept or dropped, and the listed blobs are active.
abbrev pub Same : RaspiMotionBlob → RaspiMotionBlob → Type 0
Same s s' = Ready s' × (s'.mvx ≡ s.mvx) × (s'.mvy ≡ s.mvy)

keep_blob-Same :
    (s : RaspiMotionBlob) (id size : ℕ) (b : Cells)
    → s.mvx ≤ 256
    → s.mvy ≤ 256
    → Others id s
    → 2 ≤ id
    → id < 256
    → (s.blob_list id).blob ≡ some b
    → Same s (keep_blob id size s)
unfolding keep_blob unacquire_blob_id
keep_blob-Same s id size b small_x small_y others low high buffer =
    if_cases (Same s) (s.below_cancel_threshold size)
      (record { small_x = small_x; small_y = small_y; listed = rest _ }, refl, refl)
      (
        record {
          small_x = small_x;
          small_y = small_y;
          listed = All-append _ s.active_blob_list (id ∷ []) (rest _) (kept, tt);
        },
        refl,
        refl,
      )
  where
    kept_blob : MotionBlob
    kept_blob = record (s.blob_list id) { status = active; size = size; update_counter = 1 }

    rest : (v : MotionBlob) → All (Listed (update s.blob_list id v)) s.active_blob_list
    rest v =
        All-map _ _ s.active_blob_list (λ j (l, n). update-Listed s.blob_list id j v n l) others

    kept : Listed (update s.blob_list id kept_blob) id
    kept =
        let here = update_self s.blob_list id kept_blob in
        (
          low,
          high,
          ap (λ (v : MotionBlob). is_active v.status) here,
          (b, ap (λ (v : MotionBlob). v.blob) here ∙ buffer),
        )

-- The search of a blob that was acquired.
module _ (s : RaspiMotionBlob) (id x y : ℕ) (r : Searched) where
  abbrev pub taken : RaspiMotionBlob
  taken = record s { blob_list = update s.blob_list id (collecting_blob (s.blob_list id)) }

  abbrev pub marked_blob : MotionBlob
  marked_blob = record (taken.blob_list id) {
    sx = x % byte_mod;
    sy = y % byte_mod;
    blob = some r.blob_marked;
  }

  abbrev pub searched : RaspiMotionBlob
  searched = record taken {
    source = r.source_left;
    blob_list = update taken.blob_list id marked_blob;
  }

  pub search_blob_lem :
      search_connected_blob s.mvx s.mvy id (s.mvx * s.mvy) x y s.source blank_cells ≡ some r
      → search_blob x y id taken ≡ some (r.blob_size, searched)
  unfolding search_blob
  search_blob_lem e = ground arith

  pub searched-Same :
      Ready s
      → is_unused (s.blob_list id).status ≡ true
      → 2 ≤ id
      → id < 256
      → Same s (keep_blob id r.blob_size searched)
  searched-Same v free low high =
      keep_blob-Same searched id r.blob_size r.blob_marked v.small_x v.small_y
        (update-Others taken id marked_blob
          (update-Others s id (collecting_blob (s.blob_list id)) (unused-Others s id free v)))
        low high (ap (λ (m : MotionBlob). m.blob) (update_self taken.blob_list id marked_blob))
