-- ===== src/FrameQueue/Ownership.antt =====
-- Which buffers the lists of a frame queue name, how often, and how many of them are permanent.
use rpi_webrtc_streamer.Base.{
  ℕ, ◌+◌, ◌<◌, ◌≡◌, refl, ap, ap₂, inl, inr, Bool, false, not, Option, none, some, List, [], ◌∷◌,
  ◌++◌, map, arith, ◌==◌, if◌then◌else◌, ==_iff, Bool-cases, count, count-append, occ, occ-append,
  occ_head, update,
}
use rpi_webrtc_streamer.FrameQueue.{FrameBuffer, FrameQueue}

abbrev pub Heap : Type 0
Heap = ℕ → Option FrameBuffer

abbrev pub is_permanent : Option FrameBuffer → Bool
is_permanent none = false
is_permanent (some b) = not b.temporary

-- The number of permanent buffers in a list.
abbrev pub permanents : Heap → List ℕ → ℕ
permanents heap xs = count (λ p. is_permanent (heap p)) xs

-- The heaps hold the same at every member of the list.
abbrev pub Agree : Heap → Heap → List ℕ → Type 0
Agree h h' xs = (p : ℕ) → 0 < occ p xs → h p ≡ h' p

pub permanents-append :
    (h : Heap) (xs ys : List ℕ) → permanents h (xs ++ ys) ≡ permanents h xs + permanents h ys
permanents-append h xs ys = count-append (λ p. is_permanent (h p)) xs ys

pub permanents-Agree :
    (h h' : Heap) (xs : List ℕ) → Agree h h' xs → permanents h xs ≡ permanents h' xs
permanents-Agree h h' [] a = refl
permanents-Agree h h' (x ∷ xs) a =
    ap₂ ◌+◌ (ap (λ o. if is_permanent o then 1 else 0) (a x (occ_head x xs)))
      (permanents-Agree h h' xs (λ p m. a p (omega (arith, m))))

pub map-Agree : (h h' : Heap) (xs : List ℕ) → Agree h h' xs → map h xs ≡ map h' xs
map-Agree h h' [] a = refl
map-Agree h h' (x ∷ xs) a =
    ap₂ ◌∷◌ (a x (occ_head x xs)) (map-Agree h h' xs (λ p m. a p (omega (arith, m))))

-- A write to a buffer that is not in the list.
pub update-Agree :
    (h : Heap) (p : ℕ) (v : Option FrameBuffer) (xs : List ℕ)
    → occ p xs ≡ 0
    → Agree (update h p v) h xs
update-Agree h p v xs z q m = elim (Bool-cases (q == p)) [
  | inl e ↦ absurd (omega (arith, (==_iff q p).0 e, ap (λ t. occ t xs) ((==_iff q p).0 e)))
  | inr n ↦ rw n
]

-- The buffers that the queue has, each named by one of its lists.
abbrev pub owned : FrameQueue → List ℕ
owned q = q.pending ++ (q.encoded_frame_queue ++ q.free_list)

pub occ-owned :
    (p : ℕ) (q : FrameQueue)
    → occ p (owned q) ≡ occ p q.pending + occ p q.encoded_frame_queue + occ p q.free_list
occ-owned p q = omega (
  arith,
  occ-append p q.pending (q.encoded_frame_queue ++ q.free_list),
  occ-append p q.encoded_frame_queue q.free_list,
)

pub permanents-owned :
    (h : Heap) (q : FrameQueue)
    → permanents h (owned q)
      ≡ permanents h q.pending + permanents h q.encoded_frame_queue + permanents h q.free_list
permanents-owned h q = omega (
  arith,
  permanents-append h q.pending (q.encoded_frame_queue ++ q.free_list),
  permanents-append h q.encoded_frame_queue q.free_list,
)
