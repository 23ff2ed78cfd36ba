-- ===== src/Blob/Search/Round.antt =====
-- One round of the loop of SearchConnectedBlob.
use mathlib.Core.Path.{subst₂}
use rpi_webrtc_streamer.Base.{
  ℕ, ◌+◌, ◌-◌, ◌≤◌, ◌<◌, ◌≡◌, refl, sym, inl, inr, Bool, List, arith, ltb, ltb→lt, lt→ltb,
}
use rpi_webrtc_streamer.Blob.Search.{Cells, cell, Found, next_blobpoint, search_connected_neighbor}
use rpi_webrtc_streamer.Blob.Search.Grid.{Adjacent, Connected, next}
use rpi_webrtc_streamer.Blob.Search.Invariant.{Inv, Extends, next_blobpoint-Extends}

module _ (w h id x0 y0 : ℕ) (small_w : w ≤ 256) (small_h : h ≤ 256) (source0 : Cells) where
  -- All neighbours with motion of the point (x, y) are marked.
  pub record Queues (source : Cells) (current : List ℕ) (x y : ℕ) (f f' : Found) : Type 0 where
    pub inv : Inv w h id x0 y0 source0 source f'.blob current f'.connected_list
    pub grows : (c : ℕ) → 1 ≤ f.blob c → 1 ≤ f'.blob c
    pub marks :
        (x' y' : ℕ)
        → Adjacent w h x y x' y'
        → 0 < source0 (cell w x' y')
        → 1 ≤ f'.blob (cell w x' y')

  module _ (source : Cells) (current : List ℕ) (x y : ℕ) (in_w : x < w) (in_h : y < h)
      (reached : Connected w h x0 y0 source0 x y) (f : Found)
      (v : Inv w h id x0 y0 source0 source f.blob current f.connected_list) where
    abbrev right : Found
    right = next_blobpoint w source (ltb (x + 1) w) (x + 1) y f

    abbrev down : Found
    down = next_blobpoint w source (ltb (y + 1) h) x (y + 1) right

    abbrev left : Found
    left = next_blobpoint w source (ltb 0 x) (x - 1) y down

    abbrev up : Found
    up = next_blobpoint w source (ltb 0 y) x (y - 1) left

    abbrev Use : Bool → ℕ → ℕ → Found → Found → Type 0
    Use = Extends w h id x0 y0 source0 source current

    right-Use : Use (ltb (x + 1) w) (x + 1) y f right
    right-Use =
        next_blobpoint-Extends w h id x0 y0 source0 source current f small_w small_h v
          (ltb (x + 1) w) (x + 1) y
          λ e.
            let lt : x + 1 < w = ltb→lt (x + 1) w e in
            (lt, in_h, next reached (inl (refl, refl, lt)))

    down-Use : Use (ltb (y + 1) h) x (y + 1) right down
    down-Use =
        next_blobpoint-Extends w h id x0 y0 source0 source current right small_w small_h
          right-Use.inv (ltb (y + 1) h) x (y + 1)
          λ e.
            let lt : y + 1 < h = ltb→lt (y + 1) h e in
            (in_w, lt, next reached (inr (inl (refl, refl, lt))))

    left-Use : Use (ltb 0 x) (x - 1) y down left
    left-Use =
        next_blobpoint-Extends w h id x0 y0 source0 source current down small_w small_h down-Use.inv
          (ltb 0 x) (x - 1) y
          λ e.
            let pos : 0 < x = ltb→lt 0 x e in
            let back : x ≡ x - 1 + 1 = omega arith in
            (omega arith, in_h, next reached (inr (inr (inl (back, refl)))))

    up-Use : Use (ltb 0 y) x (y - 1) left up
    up-Use =
        next_blobpoint-Extends w h id x0 y0 source0 source current left small_w small_h left-Use.inv
          (ltb 0 y) x (y - 1)
          λ e.
            let pos : 0 < y = ltb→lt 0 y e in
            let back : y ≡ y - 1 + 1 = omega arith in
            (in_w, omega arith, next reached (inr (inr (inr (refl, back)))))

    abbrev Marked : ℕ → ℕ → Type 0
    Marked a b = 0 < source0 (cell w a b) → 1 ≤ up.blob (cell w a b)

    neighbours-Marked : (x' y' : ℕ) → Adjacent w h x y x' y' → Marked x' y'
    neighbours-Marked x' y' (inl (ex, ey, lt)) = subst₂ Marked (sym ex) (sym ey) λ s.
        up-Use.grows _ (left-Use.grows _ (down-Use.grows _ (right-Use.marks (lt→ltb _ _ lt) s)))
    neighbours-Marked x' y' (inr (inl (ex, ey, lt))) =
        subst₂ Marked (sym ex) (sym ey)
          λ s. up-Use.grows _ (left-Use.grows _ (down-Use.marks (lt→ltb _ _ lt) s))
    neighbours-Marked x' y' (inr (inr (inl (ex, ey)))) =
        let back : x - 1 ≡ x' = omega arith in
        subst₂ Marked back (sym ey)
          λ s. up-Use.grows _ (left-Use.marks (lt→ltb _ _ (omega arith)) s)
    neighbours-Marked x' y' (inr (inr (inr (ex, ey)))) =
        let back : y - 1 ≡ y' = omega arith in
        subst₂ Marked (sym ex) back λ s. up-Use.marks (lt→ltb _ _ (omega arith)) s

    pub search_connected_neighbor-Queues :
        Queues source current x y f (search_connected_neighbor w h source x y f)
    unfolding search_connected_neighbor
    search_connected_neighbor-Queues = record {
      inv = up-Use.inv;
      grows = λ c m. up-Use.grows c (left-Use.grows c (down-Use.grows c (right-Use.grows c m)));
      marks = neighbours-Marked;
    }
