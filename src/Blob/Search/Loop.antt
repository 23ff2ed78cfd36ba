-- ===== src/Blob/Search/Loop.antt =====
-- SearchConnectedBlob ends, and marks and clears exactly the area of its first point.
use rpi_webrtc_streamer.Base.{
  ℕ, zero, suc, ◌+◌, ◌*◌, ◌%◌, ◌≤◌, ◌<◌, ◌≡◌, refl, ap₂, subst, ◌∙◌, ◌↔◌, ◌⊎◌, inl, inr, Option,
  some, List, [], ◌∷◌, arith, le_or_lt, occ_head, update,
}
use rpi_webrtc_streamer.Blob.Search.{
  Cells, Point, cell, byte_mod, Found, Searched, search_connected_neighbor, search_next,
  search_loop, search_connected_blob,
}
use rpi_webrtc_streamer.Blob.Search.Grid.{
  Adjacent, Connected, start, next, cell_in_range, live, live-clear,
}
use rpi_webrtc_streamer.Blob.Search.Invariant.{cells, Inv}
use rpi_webrtc_streamer.Blob.Search.Round.{search_connected_neighbor-Queues}
use rpi_webrtc_streamer.Blob.Search.Steps.{enter-Inv, leave-Inv, first-Inv}

module _ (w h id x0 y0 : ℕ) (small_w : w ≤ 256) (small_h : h ≤ 256) (some_id : 1 ≤ id)
    (source0 : Cells) where
  -- The search ends with `total` cells of the blob and of the motion that is left.
  abbrev Ends : ℕ → Option Searched → Type 0
  Ends total r =
      (s : Searched) × (r ≡ some s)
      × Inv w h id x0 y0 source0 s.source_left s.blob_marked [] []
      × (s.blob_size + live s.source_left (w * h) ≡ total)

  abbrev EndsWithin : ℕ → Type 0
  EndsWithin fuel =
      (x y size : ℕ) (source : Cells) (f : Found)
      → x < w
      → y < h
      → Connected w h x0 y0 source0 x y
      → 0 < source (cell w x y)
      → Inv w h id x0 y0 source0 (update source (cell w x y) 0) (update f.blob (cell w x y) id)
          (cell w x y ∷ []) f.connected_list
      → live source (w * h) ≤ fuel
      → Ends (size + live source (w * h)) (search_loop w h id fuel x y size source f)

  search_next-Ends :
      (fuel : ℕ)
      → EndsWithin fuel
      → (size : ℕ) (source : Cells) (f : Found) (queue : List Point)
      → Inv w h id x0 y0 source0 source f.blob [] queue
      → live source (w * h) ≤ fuel
      → Ends
          (size + live source (w * h))
          (search_next (search_loop w h id fuel) size source f queue)
  unfolding search_next
  search_next-Ends fuel ends size source f [] v enough =
      (record { blob_size = size; source_left = source; blob_marked = f.blob }, refl, v, refl)
  search_next-Ends fuel ends size source f ((x, y) ∷ rest) v enough =
      let (motion, mark) = v.queued (cell w x y) (occ_head (cell w x y) (cells w rest)) in
      ends x y size source (record f { connected_list = rest }) v.inside.0.0 v.inside.0.1
        (v.sound x y v.inside.0.0 v.inside.0.1 (omega arith)) motion
        (enter-Inv w h id x0 y0 some_id source0 x y rest source f.blob v) enough

  search_loop-Ends : (fuel : ℕ) → EndsWithin fuel
  unfolding search_loop
  search_loop-Ends zero x y size source f in_w in_h reached motion v enough = absurd (
      omega
        (arith, live-clear source (cell w x y) (w * h) (cell_in_range w h x y in_w in_h) motion))
  search_loop-Ends (suc fuel) x y size source f in_w in_h reached motion v enough =
      let cleared : live (update source (cell w x y) 0) (w * h) + 1 ≡ live source (w * h) =
        live-clear source (cell w x y) (w * h) (cell_in_range w h x y in_w in_h) motion in
      let source' : Cells = update source (cell w x y) 0 in
      let marked : Found = record f { blob = update f.blob (cell w x y) id } in
      let q =
        search_connected_neighbor-Queues w h id x0 y0 small_w small_h source0 source'
          (cell w x y ∷ []) x y in_w in_h reached marked v in
      let f' : Found = search_connected_neighbor w h source' x y marked in
      subst (λ total. Ends total (search_loop w h id (suc fuel) x y size source f))
        (omega (arith, cleared))
        (search_next-Ends fuel (search_loop-Ends fuel) (size + 1) source' f' f'.connected_list
          (leave-Inv w h id x0 y0 some_id source0 x y f'.connected_list source' f'.blob in_w q.inv
            q.marks)
          (omega (arith, cleared)))

-- What SearchConnectedBlob does to a picture from its first point: it ends; in the grid, exactly the
-- area of the point has the id.
pub record Fills (w h id x0 y0 : ℕ) (source0 : Cells) (s : Searched) : Type 0 where
  pub size : s.blob_size + live s.source_left (w * h) ≡ live source0 (w * h)
  pub area :
      (x y : ℕ)
      → ((x < w) × (y < h) × (s.blob_marked (cell w x y) ≡ id)) ↔ Connected w h x0 y0 source0 x y
  pub moved :
      (c : ℕ)
      → (s.blob_marked c ≡ id) × (s.source_left c ≡ 0)
        ⊎ (s.blob_marked c ≡ 0) × (s.source_left c ≡ source0 c)

module _ (w h id x0 y0 : ℕ) (some_id : 1 ≤ id) (source0 source blob : Cells)
    (v : Inv w h id x0 y0 source0 source blob [] []) where
  -- In the end the marked points are the area.
  marked_area :
      x0 < w
      → y0 < h
      → {x y : ℕ} → Connected w h x0 y0 source0 x y
      → (x < w) × (y < h) × (1 ≤ blob (cell w x y))
  marked_area in_w in_h start = (in_w, in_h, v.origin)
  marked_area in_w in_h (next {x} {y} {x'} {y'} reached adj motion) =
      let (p, q, k) = marked_area in_w in_h reached in
      let (p', q') = adjacent_inside p q adj in
      (p', q', v.closed x y x' y' p q k refl refl adj motion)
    where
      adjacent_inside : x < w → y < h → Adjacent w h x y x' y' → (x' < w) × (y' < h)
      adjacent_inside p q adj = grind arith

  marked_cell : (c : ℕ) → (blob c ≡ 0) ⊎ (blob c ≡ id) × (source c ≡ 0)
  marked_cell c = elim (le_or_lt 1 (blob c)) [
    | inl m ↦ inr (v.visited c m refl)
    | inr z ↦ inl (omega arith)
  ]

  moved_cell : (c : ℕ) → (blob c ≡ id) × (source c ≡ 0) ⊎ (blob c ≡ 0) × (source c ≡ source0 c)
  moved_cell c = elim (marked_cell c) [
    | inr done ↦ inl done
    | inl z ↦ elim (v.motion c) [ inl same ↦ inr (z, same) | inr (_, m) ↦ absurd (omega arith) ]
  ]

  area_points :
      x0 < w
      → y0 < h
      → (x y : ℕ) → ((x < w) × (y < h) × (blob (cell w x y) ≡ id)) ↔ Connected w h x0 y0 source0 x y
  area_points in_w in_h x y = (
    λ (p, q, e). v.sound x y p q (omega arith),
    λ reached.
        let (p, q, m) = marked_area in_w in_h reached in (p, q, (v.visited (cell w x y) m refl).0),
  )

-- SearchConnectedBlob on a point with motion, with an empty blob, a grid of at most 256 by 256 and
-- fuel for every cell with motion, ends; in the blob exactly the area of the point has the id, these
-- cells are cleared in the source, no other cell of the two changes, and the returned size is the
-- number of cells that lost their motion.
pub search_connected_blob-Fills :
    (w h id fuel x y : ℕ) (source blob : Cells)
    → w ≤ 256
    → h ≤ 256
    → 1 ≤ id
    → x < w
    → y < h
    → 0 < source (cell w x y)
    → ((c : ℕ) → blob c ≡ 0)
    → live source (w * h) ≤ fuel
    → (s : Searched) × (search_connected_blob w h id fuel x y source blob ≡ some s)
      × Fills w h id x y source s
unfolding search_connected_blob
search_connected_blob-Fills w h id fuel x y source blob small_w small_h some_id in_w in_h motion
      blank enough =
    let found : Found = record { blob = blob; connected_list = [] } in
    let small_x : x % byte_mod ≡ x = omega arith in
    let small_y : y % byte_mod ≡ y = omega arith in
    let (s, ends, v, size) =
      search_loop-Ends w h id x y small_w small_h some_id source fuel x y 0 source found in_w in_h
        start motion (first-Inv w h id x y some_id source blob blank in_w) enough in
    (
      s,
      ap₂ (λ a b. search_loop w h id fuel a b 0 source found) small_x small_y ∙ ends,
      record {
        size = omega (arith, size);
        area = area_points w h id x y some_id source s.source_left s.blob_marked v in_w in_h;
        moved = moved_cell w h id x y some_id source s.source_left s.blob_marked v;
      },
    )
