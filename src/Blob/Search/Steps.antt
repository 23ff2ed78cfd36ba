-- ===== src/Blob/Search/Steps.antt =====
-- How the invariant of SearchConnectedBlob starts, and what a round does to it before and after its
-- neighbours are queued.
use rpi_webrtc_streamer.Base.{
  ℕ, ◌≤◌, ◌<◌, ◌≡◌, refl, sym, ap, subst, ◌∙◌, ◌≢◌, ◌⊎◌, inl, inr, List, [], ◌∷◌, arith, ℕ_discrete,
  occ, occ_head, occ_self, occ_ne, update, update_self, update_ne,
}
use mathlib.Core.Path.{subst₂}
use rpi_webrtc_streamer.Blob.Search.{Cells, Point, cell}
use rpi_webrtc_streamer.Blob.Search.Grid.{cell_injective, Adjacent, Connected, start}
use rpi_webrtc_streamer.Blob.Search.Invariant.{cells, Inv}

module _ (w h id x0 y0 : ℕ) (some_id : 1 ≤ id) (source0 : Cells) where
  -- The point (x, y) is taken from the queue, cleared and marked with the id.
  module _ (x y : ℕ) (rest : List Point) (source blob : Cells)
      (v : Inv w h id x0 y0 source0 source blob [] ((x, y) ∷ rest)) where
    abbrev c₀ : ℕ
    c₀ = cell w x y

    abbrev source' : Cells
    source' = update source c₀ 0

    abbrev blob' : Cells
    blob' = update blob c₀ id

    queued_here : (0 < source c₀) × (blob c₀ ≡ 1)
    queued_here = v.queued c₀ (occ_head c₀ (cells w rest))

    not_again : occ c₀ (cells w rest) ≡ 0
    not_again = omega (arith, v.once c₀, occ_self c₀ (cells w rest))

    other : (c : ℕ) → 0 < occ c (cells w rest) → c ≢ c₀
    other c m e = omega (arith, m, not_again, ap (λ t. occ t (cells w rest)) e)

    same_mark : (c : ℕ) → c ≢ c₀ → blob' c ≡ blob c
    same_mark c n = update_ne blob c₀ c id n

    same_source : (c : ℕ) → c ≢ c₀ → source' c ≡ source c
    same_source c n = update_ne source c₀ c 0 n

    marked_more : (c : ℕ) → 1 ≤ blob c → 1 ≤ blob' c
    marked_more c m = ground arith

    queued' : (c : ℕ) → 0 < occ c (cells w rest) → (0 < source' c) × (blob' c ≡ 1)
    queued' c m =
        let n : c ≢ c₀ = other c m in
        let (motion, mark) = v.queued c (omega (arith, m)) in
        (subst (λ t. 0 < t) (sym (same_source c n)) motion, same_mark c n ∙ mark)

    sound' : (a b : ℕ) → a < w → b < h → 1 ≤ blob' (cell w a b) → Connected w h x0 y0 source0 a b
    sound' a b p q m = elim (ℕ_discrete (cell w a b) c₀) [
      | yes e ↦ v.sound a b p q (omega (arith, ap blob e, queued_here.1))
      | no n ↦ v.sound a b p q (omega (arith, m, same_mark (cell w a b) n))
    ]

    motion' : (c : ℕ) → (source' c ≡ source0 c) ⊎ (source' c ≡ 0) × (1 ≤ blob' c)
    motion' c = elim (ℕ_discrete c c₀) [
      | yes e ↦ inr (
        ap source' e ∙ update_self source c₀ 0,
        omega (arith, ap blob' e, update_self blob c₀ id),
      )
      | no n ↦ elim (v.motion c) [
        | inl old ↦ inl (same_source c n ∙ old)
        | inr (z, m) ↦ inr (same_source c n ∙ z, marked_more c m)
      ]
    ]

    visited' : (c : ℕ) → 1 ≤ blob' c → occ c (cells w rest) ≡ 0 → (blob' c ≡ id) × (source' c ≡ 0)
    visited' c m z = elim (ℕ_discrete c c₀) [
      | yes e ↦ (ap blob' e ∙ update_self blob c₀ id, ap source' e ∙ update_self source c₀ 0)
      | no n ↦
          let (mark, gone) =
            v.visited c (omega (arith, m, same_mark c n))
              (omega (arith, z, occ_ne c c₀ (cells w rest) (λ e. n (sym e)))) in
          (same_mark c n ∙ mark, same_source c n ∙ gone)
    ]

    closed' :
        (a b a' b' : ℕ)
        → a < w
        → b < h
        → 1 ≤ blob' (cell w a b)
        → occ (cell w a b) (cells w rest) ≡ 0
        → occ (cell w a b) (c₀ ∷ []) ≡ 0
        → Adjacent w h a b a' b'
        → 0 < source0 (cell w a' b')
        → 1 ≤ blob' (cell w a' b')
    closed' a b a' b' p q m z k adj s =
        let n : cell w a b ≢ c₀ =
          λ e. omega (arith, k, occ_self c₀ [], ap (λ t. occ t (c₀ ∷ [])) e) in
        marked_more (cell w a' b') (
          v.closed a b a' b' p q (omega (arith, m, same_mark (cell w a b) n))
            (omega (arith, z, occ_ne (cell w a b) c₀ (cells w rest) (λ e. n (sym e)))) refl adj s)

    pub enter-Inv : Inv w h id x0 y0 source0 source' blob' (c₀ ∷ []) rest
    enter-Inv = record {
      origin = marked_more (cell w x0 y0) v.origin;
      inside = v.inside.1;
      queued = queued';
      once = λ c. omega (arith, v.once c);
      sound = sound';
      motion = motion';
      visited = visited';
      closed = closed';
    }

  -- Once the neighbours with motion of the point (x, y) are marked, it is no longer current.
  pub leave-Inv :
      (x y : ℕ) (queue : List Point) (source blob : Cells)
      → x < w
      → Inv w h id x0 y0 source0 source blob (cell w x y ∷ []) queue
      → ((x' y' : ℕ)
          → Adjacent w h x y x' y'
          → 0 < source0 (cell w x' y')
          → 1 ≤ blob (cell w x' y'))
      → Inv w h id x0 y0 source0 source blob [] queue
  leave-Inv x y queue source blob in_w v marks = record {
    origin = v.origin;
    inside = v.inside;
    queued = v.queued;
    once = v.once;
    sound = v.sound;
    motion = v.motion;
    visited = v.visited;
    closed = closed';
  }
    where
      closed' :
          (a b a' b' : ℕ)
          → a < w
          → b < h
          → 1 ≤ blob (cell w a b)
          → occ (cell w a b) (cells w queue) ≡ 0
          → occ (cell w a b) [] ≡ 0
          → Adjacent w h a b a' b'
          → 0 < source0 (cell w a' b')
          → 1 ≤ blob (cell w a' b')
      closed' a b a' b' p q m z k adj s = elim (ℕ_discrete (cell w a b) (cell w x y)) [
        | yes e ↦
            let (same_x, same_y) = cell_injective w a b x y p in_w e in
            marks a' b' (subst₂ (λ s t. Adjacent w h s t a' b') same_x same_y adj) s
        | no n ↦ v.closed a b a' b' p q m z (occ_ne _ _ [] (λ e. n (sym e))) adj s
      ]

  -- The state after the first point of the search is cleared and marked.
  pub first-Inv :
      (blob : Cells)
      → ((c : ℕ) → blob c ≡ 0)
      → x0 < w
      → Inv w h id x0 y0 source0
          (update source0 (cell w x0 y0) 0)
          (update blob (cell w x0 y0) id)
          (cell w x0 y0 ∷ [])
          []
  first-Inv blob blank in_w = record {
    origin = omega (arith, marked (cell w x0 y0) refl);
    inside = tt;
    queued = λ c m. absurd (omega (arith, m));
    once = λ c. omega arith;
    sound = λ a b p q m. elim (ℕ_discrete (cell w a b) (cell w x0 y0)) [
      | yes e ↦
          let (same_x, same_y) = cell_injective w a b x0 y0 p in_w e in
          subst₂ (Connected w h x0 y0 source0) (sym same_x) (sym same_y) start
      | no n ↦ absurd (omega (arith, m, unmarked (cell w a b) n))
    ];
    motion = λ c. elim (ℕ_discrete c (cell w x0 y0)) [
      | yes e ↦ inr (cleared c e, omega (arith, marked c e))
      | no n ↦ inl (update_ne source0 (cell w x0 y0) c 0 n)
    ];
    visited = λ c m z. elim (ℕ_discrete c (cell w x0 y0)) [
      | yes e ↦ (marked c e, cleared c e)
      | no n ↦ absurd (omega (arith, m, unmarked c n))
    ];
    closed = λ a b a' b' p q m z k adj s. elim (ℕ_discrete (cell w a b) (cell w x0 y0)) [
      | yes e ↦
          absurd
            (omega (arith, k, occ_self (cell w x0 y0) [], ap (λ t. occ t (cell w x0 y0 ∷ [])) e))
      | no n ↦ absurd (omega (arith, m, unmarked (cell w a b) n))
    ];
  }
    where
      unmarked : (c : ℕ) → c ≢ cell w x0 y0 → update blob (cell w x0 y0) id c ≡ 0
      unmarked c n = update_ne blob (cell w x0 y0) c id n ∙ blank c

      marked : (c : ℕ) → c ≡ cell w x0 y0 → update blob (cell w x0 y0) id c ≡ id
      marked c e = ap (update blob (cell w x0 y0) id) e ∙ update_self blob (cell w x0 y0) id

      cleared : (c : ℕ) → c ≡ cell w x0 y0 → update source0 (cell w x0 y0) 0 c ≡ 0
      cleared c e = ap (update source0 (cell w x0 y0) 0) e ∙ update_self source0 (cell w x0 y0) 0
