-- ===== src/Blob/Search/Invariant.antt =====
-- The invariant of SearchConnectedBlob, and the macro NEXT_BLOBPOINT under it.
use rpi_webrtc_streamer.Base.{
  ℕ, ◌+◌, ◌%◌, ◌≤◌, ◌<◌, ◌≡◌, refl, sym, ap, subst, ◌∙◌, ◌≢◌, ◌⊎◌, inl, inr, Bool, true, false,
  List, [], ◌∷◌, ◌++◌, map, arith, ℕ_discrete, lt→ltb, le_or_lt, All, All-append, occ, occ-append,
  occ_self, occ_ne, update, update_self, update_ne,
}
use mathlib.Core.List.{map-append}
use mathlib.Core.Path.{subst₂}
use rpi_webrtc_streamer.Blob.Search.{Cells, Point, byte_mod, cell, Found, next_blobpoint}
use rpi_webrtc_streamer.Blob.Search.Grid.{cell_injective, Adjacent, Connected}

abbrev pub cells : ℕ → List Point → List ℕ
cells w ps = map (λ p. cell w p.0 p.1) ps

pub cells-append : (w : ℕ) (ps qs : List Point) → cells w (ps ++ qs) ≡ cells w ps ++ cells w qs
cells-append w ps qs = map-append _ ps qs

-- The search from the point (x0, y0) of the picture `source0` has cleared a part of it and marked
-- that part in `blob`; the points of `queue` are marked, and are to be visited; the neighbours of
-- those in `current` are being queued.
pub record Inv (w h id x0 y0 : ℕ) (source0 source blob : Cells) (current : List ℕ)
    (queue : List Point) : Type 0 where
  pub inside : All (λ p. (p.0 < w) × (p.1 < h)) queue
  pub queued : (c : ℕ) → 0 < occ c (cells w queue) → (0 < source c) × (blob c ≡ 1)
  pub origin : 1 ≤ blob (cell w x0 y0)
  pub once : (c : ℕ) → occ c (cells w queue) ≤ 1
  pub sound : (x y : ℕ) → x < w → y < h → 1 ≤ blob (cell w x y) → Connected w h x0 y0 source0 x y
  pub motion : (c : ℕ) → (source c ≡ source0 c) ⊎ (source c ≡ 0) × (1 ≤ blob c)
  pub visited : (c : ℕ) → 1 ≤ blob c → occ c (cells w queue) ≡ 0 → (blob c ≡ id) × (source c ≡ 0)
  pub closed :
      (x y x' y' : ℕ)
      → x < w
      → y < h
      → 1 ≤ blob (cell w x y)
      → occ (cell w x y) (cells w queue) ≡ 0
      → occ (cell w x y) current ≡ 0
      → Adjacent w h x y x' y'
      → 0 < source0 (cell w x' y')
      → 1 ≤ blob (cell w x' y')

-- What a use of the macro at the point (nx, ny) gives.
pub record Extends (w h id x0 y0 : ℕ) (source0 source : Cells) (current : List ℕ) (inside : Bool)
    (nx ny : ℕ) (f f' : Found) : Type 0 where
  pub inv : Inv w h id x0 y0 source0 source f'.blob current f'.connected_list
  pub grows : (c : ℕ) → 1 ≤ f.blob c → 1 ≤ f'.blob c
  pub marks : inside ≡ true → 0 < source0 (cell w nx ny) → 1 ≤ f'.blob (cell w nx ny)

module _ (w h id x0 y0 : ℕ) (source0 source : Cells) (current : List ℕ) (f : Found)
    (v : Inv w h id x0 y0 source0 source f.blob current f.connected_list) (nx ny : ℕ)
    (in_w : nx < w) (in_h : ny < h) where
  abbrev c₀ : ℕ
  c₀ = cell w nx ny

  -- A point with motion that is not marked is queued and marked.
  module _ (connected : Connected w h x0 y0 source0 nx ny) (has_motion : 0 < source c₀)
      (unmarked : f.blob c₀ ≡ 0) where
    abbrev blob' : Cells
    blob' = update f.blob c₀ 1

    abbrev queue' : List Point
    queue' = f.connected_list ++ ((nx, ny) ∷ [])

    split_queue :
        (c : ℕ) → occ c (cells w queue') ≡ occ c (cells w f.connected_list) + occ c (c₀ ∷ [])
    split_queue c =
        ap (occ c) (cells-append w f.connected_list ((nx, ny) ∷ []))
        ∙ occ-append c (cells w f.connected_list) (c₀ ∷ [])

    not_queued : occ c₀ (cells w f.connected_list) ≡ 0
    not_queued = elim (le_or_lt (occ c₀ (cells w f.connected_list)) 0) [
      | inl z ↦ omega arith
      | inr m ↦ absurd (omega (arith, v.queued c₀ m))
    ]

    marked_more : (c : ℕ) → 1 ≤ f.blob c → 1 ≤ blob' c
    marked_more c m = ground arith

    here : (c : ℕ) → c ≡ c₀ → occ c (cells w queue') ≡ 1
    here c e =
        omega
          (arith, split_queue c₀, not_queued, occ_self c₀ [], ap (λ t. occ t (cells w queue')) e)

    elsewhere : (c : ℕ) → c ≢ c₀ → occ c (cells w queue') ≡ occ c (cells w f.connected_list)
    elsewhere c n = omega (arith, split_queue c, occ_ne c c₀ [] (λ e. n (sym e)))

    same_mark : (c : ℕ) → c ≢ c₀ → blob' c ≡ f.blob c
    same_mark c n = update_ne f.blob c₀ c 1 n

    queued' : (c : ℕ) → 0 < occ c (cells w queue') → (0 < source c) × (blob' c ≡ 1)
    queued' c m = elim (ℕ_discrete c c₀) [
      | yes e ↦ (subst (λ t. 0 < source t) (sym e) has_motion, ap blob' e ∙ update_self f.blob c₀ 1)
      | no n ↦
          let (motion, mark) = v.queued c (omega (arith, m, elsewhere c n)) in
          (motion, same_mark c n ∙ mark)
    ]

    once' : (c : ℕ) → occ c (cells w queue') ≤ 1
    once' c = elim (ℕ_discrete c c₀) [
      | yes e ↦ omega (arith, here c e)
      | no n ↦ omega (arith, elsewhere c n, v.once c)
    ]

    sound' : (x y : ℕ) → x < w → y < h → 1 ≤ blob' (cell w x y) → Connected w h x0 y0 source0 x y
    sound' x y p q m = elim (ℕ_discrete (cell w x y) c₀) [
      | yes e ↦
          let (same_x, same_y) = cell_injective w x y nx ny p in_w e in
          subst₂ (Connected w h x0 y0 source0) (sym same_x) (sym same_y) connected
      | no n ↦ v.sound x y p q (omega (arith, m, same_mark (cell w x y) n))
    ]

    motion' : (c : ℕ) → (source c ≡ source0 c) ⊎ (source c ≡ 0) × (1 ≤ blob' c)
    motion' c = elim (v.motion c) [ inl e ↦ inl e | inr (z, m) ↦ inr (z, marked_more c m) ]

    visited' : (c : ℕ) → 1 ≤ blob' c → occ c (cells w queue') ≡ 0 → (blob' c ≡ id) × (source c ≡ 0)
    visited' c m z = elim (ℕ_discrete c c₀) [
      | yes e ↦ absurd (omega (arith, z, here c e))
      | no n ↦
          let (mark, gone) =
            v.visited c (omega (arith, m, same_mark c n)) (omega (arith, z, elsewhere c n)) in
          (same_mark c n ∙ mark, gone)
    ]

    closed' :
        (x y x' y' : ℕ)
        → x < w
        → y < h
        → 1 ≤ blob' (cell w x y)
        → occ (cell w x y) (cells w queue') ≡ 0
        → occ (cell w x y) current ≡ 0
        → Adjacent w h x y x' y'
        → 0 < source0 (cell w x' y')
        → 1 ≤ blob' (cell w x' y')
    closed' x y x' y' p q m z k a s = elim (ℕ_discrete (cell w x y) c₀) [
      | yes e ↦ absurd (omega (arith, z, here (cell w x y) e))
      | no n ↦ marked_more (cell w x' y') (
          v.closed x y x' y' p q (omega (arith, m, same_mark (cell w x y) n))
            (omega (arith, z, elsewhere (cell w x y) n)) k a s)
    ]

    push-Inv : Inv w h id x0 y0 source0 source blob' current queue'
    push-Inv = record {
      origin = marked_more (cell w x0 y0) v.origin;
      inside = All-append _ f.connected_list ((nx, ny) ∷ []) v.inside ((in_w, in_h), tt);
      queued = queued';
      once = once';
      sound = sound';
      motion = motion';
      visited = visited';
      closed = closed';
    }

  module _ (small_w : w ≤ 256) (small_h : h ≤ 256) where
    pushed :
        0 < source c₀
        → f.blob c₀ ≡ 0
        → next_blobpoint w source true nx ny f ≡ record {
          blob = update f.blob c₀ 1;
          connected_list = f.connected_list ++ ((nx, ny) ∷ []);
        }
    unfolding next_blobpoint
    pushed has_motion unmarked =
        let same_x : nx % byte_mod ≡ nx = omega arith in
        let same_y : ny % byte_mod ≡ ny = omega arith in
        rw (lt→ltb 0 (source c₀) has_motion, lt→ltb (f.blob c₀) 1 (omega arith))
          (λ i. record {
            blob = update f.blob (cell w (same_x i) (same_y i)) 1;
            connected_list = f.connected_list ++ ((same_x i, same_y i) ∷ []);
          })

    not_pushed : (source c₀ ≡ 0) ⊎ (1 ≤ f.blob c₀) → next_blobpoint w source true nx ny f ≡ f
    unfolding next_blobpoint
    not_pushed (inl z) = ground arith
    not_pushed (inr m) = ground arith

    next_inside :
        (0 < source0 c₀ → Connected w h x0 y0 source0 nx ny)
        → Extends w h id x0 y0 source0 source current true nx ny f
            (next_blobpoint w source true nx ny f)
    next_inside reached = elim (le_or_lt (source c₀) 0) [
      | inl still ↦
          let z : source c₀ ≡ 0 = omega arith in
          subst (Extends w h id x0 y0 source0 source current true nx ny f)
            (sym (not_pushed (inl z)))
            (record { inv = v; grows = λ c m. m; marks = λ _ s. cleared z s (v.motion c₀) })
      | inr moves ↦ elim (le_or_lt 1 (f.blob c₀)) [
        | inl marked ↦
            subst (Extends w h id x0 y0 source0 source current true nx ny f)
              (sym (not_pushed (inr marked)))
              (record { inv = v; grows = λ c m. m; marks = λ _ s. marked })
        | inr fresh ↦
            let unmarked : f.blob c₀ ≡ 0 = omega arith in
            subst (Extends w h id x0 y0 source0 source current true nx ny f)
              (sym (pushed moves unmarked))
              (record {
                inv = push-Inv (reached (in_picture moves (v.motion c₀))) moves unmarked;
                grows = marked_more (reached (in_picture moves (v.motion c₀))) moves unmarked;
                marks = λ _ s. omega (arith, update_self f.blob c₀ 1);
              })
      ]
    ]
      where
        cleared :
            source c₀ ≡ 0
            → 0 < source0 c₀
            → (source c₀ ≡ source0 c₀) ⊎ (source c₀ ≡ 0) × (1 ≤ f.blob c₀)
            → 1 ≤ f.blob c₀
        cleared z s (inl e) = omega arith
        cleared z s (inr (_, m)) = m

        in_picture :
            0 < source c₀
            → (source c₀ ≡ source0 c₀) ⊎ (source c₀ ≡ 0) × (1 ≤ f.blob c₀)
            → 0 < source0 c₀
        in_picture s (inl e) = omega arith
        in_picture s (inr (z, _)) = omega arith

-- The macro keeps the invariant, whether its point is inside the grid or not.
pub next_blobpoint-Extends :
    (w h id x0 y0 : ℕ) (source0 source : Cells) (current : List ℕ) (f : Found)
    → w ≤ 256
    → h ≤ 256
    → Inv w h id x0 y0 source0 source f.blob current f.connected_list
    → (inside : Bool) (nx ny : ℕ)
    → (inside ≡ true
        → (nx < w) × (ny < h) × (0 < source0 (cell w nx ny) → Connected w h x0 y0 source0 nx ny))
    → Extends w h id x0 y0 source0 source current inside nx ny f
        (next_blobpoint w source inside nx ny f)
unfolding next_blobpoint
next_blobpoint-Extends w h id x0 y0 source0 source current f small_w small_h v false nx ny given =
    record { inv = v; grows = λ c m. m; marks = λ e s. cc }
next_blobpoint-Extends w h id x0 y0 source0 source current f small_w small_h v true nx ny given =
    let (in_w, in_h, reached) = given refl in
    next_inside w h id x0 y0 source0 source current f v nx ny in_w in_h small_w small_h reached
