-- ===== src/Blob/Search/Grid.antt =====
-- Points, cells and areas of a grid.

use rpi_webrtc_streamer.Base.{
  ℕ, zero, suc, ◌+◌, ◌*◌, ◌≤◌, ◌<◌, ◌≡◌, refl, ap, ap₂, ◌∙◌, ◌⊎◌, inl, inr, arith, ltb, ◌==◌,
  if◌then◌else◌, ==_iff, Bool-cases, le_or_lt, update, update_self, update_ne,
}

row_lt : (w y y' : ℕ) → y < y' → y * w + w ≤ y' * w
row_lt w y y' h = grind arith

-- Cells that are the same belong to the same point.
pub cell_injective :
    (w x y x' y' : ℕ) → x < w → x' < w → y * w + x ≡ y' * w + x' → (x ≡ x') × (y ≡ y')
cell_injective w x y x' y' h k e = elim (le_or_lt y y') [
  | inl le ↦ elim (le_or_lt y' y) [
    | inl ge ↦ let same : y ≡ y' = omega arith in (omega (arith, ap (λ (t : ℕ). t * w) same), same)
    | inr lt ↦ absurd (omega (arith, row_lt w y y' lt))
  ]
  | inr gt ↦ absurd (omega (arith, row_lt w y' y gt))
]

pub cell_in_range : (w h x y : ℕ) → x < w → y < h → y * w + x < w * h
cell_in_range w h x y p q = grind arith

-- Neighbours in a grid of `w` by `h` points.
abbrev pub Adjacent : ℕ → ℕ → ℕ → ℕ → ℕ → ℕ → Type 0
Adjacent w h x y x' y' =
    ((x' ≡ x + 1) × (y' ≡ y) × (x + 1 < w))
    ⊎ (((x' ≡ x) × (y' ≡ y + 1) × (y + 1 < h))
        ⊎ (((x ≡ x' + 1) × (y' ≡ y)) ⊎ ((x' ≡ x) × (y ≡ y' + 1))))

-- The area of a point in a picture: the points that a path of neighbours with motion leads to.
pub data Connected (w h x0 y0 : ℕ) (source : ℕ → ℕ) : ℕ → ℕ → Type 0 where
  start : Connected w h x0 y0 source x0 y0
  next :
      {x y x' y' : ℕ}
      → Connected w h x0 y0 source x y
      → Adjacent w h x y x' y'
      → 0 < source (y' * w + x')
      → Connected w h x0 y0 source x' y'

-- The number of cells with motion among the first `n`.
unfoldable pub live : (ℕ → ℕ) → ℕ → ℕ
live source zero = 0
live source (suc n) = (if ltb 0 (source n) then 1 else 0) + live source n

abbrev has_motion : ℕ → ℕ
has_motion v = if ltb 0 v then 1 else 0

live_above : (source : ℕ → ℕ) (c n : ℕ) → n ≤ c → live (update source c 0) n ≡ live source n
unfolding live
live_above source c zero h = refl
live_above source c (suc n) h =
    ap₂ ◌+◌ (ap has_motion (update_ne source c n 0 (omega arith)))
      (live_above source c n (omega arith))

live_head : (source : ℕ → ℕ) (n : ℕ) → live source (suc n) ≡ has_motion (source n) + live source n
unfolding live
live_head source n = refl

has_motion_pos : (v : ℕ) → 0 < v → has_motion v ≡ 1
has_motion_pos v h = ground arith

-- Clearing a cell with motion takes one away.
pub live-clear :
    (source : ℕ → ℕ) (c n : ℕ)
    → c < n
    → 0 < source c
    → live (update source c 0) n + 1 ≡ live source n
live-clear source c zero h p = absurd (omega arith)
live-clear source c (suc n) h p = elim (Bool-cases (n == c)) [
  | inl same ↦
      let e : n ≡ c = (==_iff n c).0 same in
      omega (
        arith,
        live_head source n,
        live_head (update source c 0) n,
        live_above source c n (omega arith),
        ap has_motion (ap (update source c 0) e ∙ update_self source c 0),
        ap has_motion (ap source e),
        has_motion_pos (source c) p,
      )
  | inr other ↦ omega (
    arith,
    live_head source n,
    live_head (update source c 0) n,
    live-clear source c n (ground arith) p,
    ap has_motion (update_ne source c n 0 (λ e. ground arith)),
  )
]

pub live_le : (source : ℕ → ℕ) (n : ℕ) → live source n ≤ n
unfolding live
live_le source zero = omega arith
live_le source (suc n) =
    omega (arith, live_le source n, live_head source n, has_motion_le (source n))
  where
    has_motion_le : (v : ℕ) → has_motion v ≤ 1
    has_motion_le v = ground arith
