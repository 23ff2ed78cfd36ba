-- ===== src/Blob/Search.antt =====
-- RaspiMotionBlob::SearchConnectedBlob and SearchConnectedNeighbor of src/raspi_motionblob.cc. A
-- buffer is a function from cells to bytes; the cell of the point (x, y) is y * mvx + x, which fits
-- its type, since the buffers have mvx * mvy cells. The loop takes fuel, one unit for each point.
pub mod Grid
pub mod Invariant
pub mod Round
pub mod Steps
pub mod Loop
use rpi_webrtc_streamer.Base.{
  ℕ, zero, suc, ◌+◌, ◌-◌, ◌*◌, ◌%◌, Bool, ◌&&◌, Option, none, some, List, [], ◌∷◌, ◌++◌, ltb,
  if◌then◌else◌, update,
}

abbrev pub Cells : Type 0
Cells = ℕ → ℕ

abbrev pub Point : Type 0
Point = ℕ × ℕ

abbrev pub byte_mod : ℕ
byte_mod = 256

abbrev pub blob_id_not_used : ℕ
blob_id_not_used = 0

abbrev pub blob_id_crumbs : ℕ
blob_id_crumbs = 1

-- The macros SOURCE_POINT, EXTRACTED_POINT, PREVIOUS_POINT and BLOB_POINT.
abbrev pub cell : ℕ → ℕ → ℕ → ℕ
cell mvx x y = y * mvx + x

-- A point that is stored as two bytes.
abbrev pub blob_point : ℕ → ℕ → Point
blob_point x y = (x % byte_mod, y % byte_mod)

-- The state of the search beside the source: the blob buffer and the points to visit.
pub record Found : Type 0 where
  pub blob : Cells
  pub connected_list : List Point

-- The macro NEXT_BLOBPOINT.
unfoldable pub next_blobpoint : ℕ → Cells → Bool → ℕ → ℕ → Found → Found
next_blobpoint mvx source inside nx ny f =
    if inside && (ltb 0 (source (cell mvx nx ny)) && ltb (f.blob (cell mvx nx ny)) blob_id_crumbs)
    then record {
      blob = update f.blob (cell mvx (nx % byte_mod) (ny % byte_mod)) blob_id_crumbs;
      connected_list = f.connected_list ++ (blob_point nx ny ∷ []);
    }
    else f

-- The '+' filter: right, down, left, up.
unfoldable pub search_connected_neighbor : ℕ → ℕ → Cells → ℕ → ℕ → Found → Found
search_connected_neighbor mvx mvy source x y f = next_blobpoint mvx source (ltb 0 y) x (y - 1) (
    next_blobpoint mvx source (ltb 0 x) (x - 1) y (
      next_blobpoint mvx source (ltb (y + 1) mvy) x (y + 1)
        (next_blobpoint mvx source (ltb (x + 1) mvx) (x + 1) y f)))

pub record Searched : Type 0 where
  pub blob_size : ℕ
  pub source_left : Cells
  pub blob_marked : Cells

-- The end of a round: the first queued point is next, for the rounds `next_round`.
unfoldable pub search_next :
    (ℕ → ℕ → ℕ → Cells → Found → Option Searched) → ℕ → Cells → Found → List Point → Option Searched
search_next next_round blob_size source f [] =
    some (record { blob_size = blob_size; source_left = source; blob_marked = f.blob })
search_next next_round blob_size source f ((x, y) ∷ rest) =
    next_round x y blob_size source (record f { connected_list = rest })

-- The loop at the point (x, y): the point moves from the source to the blob, and its neighbours are
-- queued.
unfoldable pub search_loop : ℕ → ℕ → ℕ → ℕ → ℕ → ℕ → ℕ → Cells → Found → Option Searched
search_loop mvx mvy blob_id zero x y blob_size source f = none
search_loop mvx mvy blob_id (suc fuel) x y blob_size source f =
    let source' = update source (cell mvx x y) 0 in
    let f' =
      search_connected_neighbor mvx mvy source' x y
        (record f { blob = update f.blob (cell mvx x y) blob_id }) in
    search_next (search_loop mvx mvy blob_id fuel) (blob_size + 1) source' f' f'.connected_list

unfoldable pub search_connected_blob : ℕ → ℕ → ℕ → ℕ → ℕ → ℕ → Cells → Cells → Option Searched
search_connected_blob mvx mvy blob_id fuel x y source blob =
    search_loop mvx mvy blob_id fuel (x % byte_mod) (y % byte_mod) 0 source
      (record { blob = blob; connected_list = [] })
