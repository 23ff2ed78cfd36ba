-- ===== src/FrameQueue/Initial.antt =====
-- `Init`: the permanent buffers of a queue.
use rpi_webrtc_streamer.Base.{
  ℕ, zero, suc, ◌+◌, ◌≡◌, refl, sym, ap, subst, true, false, some, [], ◌∷◌, ◌++◌, arith, length,
  occ, occ-append, update,
}
use native.Mathlib.Nat.{add-zero}
use rpi_webrtc_streamer.FrameQueue.{FrameQueue, new_buffer, allocate, destroy, init}
use rpi_webrtc_streamer.FrameQueue.Ownership.{
  occ-owned, permanents, permanents-append, permanents-owned, owned,
}
use rpi_webrtc_streamer.FrameQueue.Owns.{Owns, Owns-order, Owns-add}
use rpi_webrtc_streamer.FrameQueue.Stream.{payloads, view}
use rpi_webrtc_streamer.FrameQueue.Filling.{IsValid}

-- The queue with one more permanent buffer, at the back of the free list.
abbrev with_buffer : FrameQueue → FrameQueue
with_buffer q = record q {
  heap = update q.heap q.fresh (some (new_buffer q.buffer_size false));
  fresh = q.fresh + 1;
  free_list = q.free_list ++ (q.fresh ∷ []);
}

with_buffer-Owns :
    (n : ℕ) (q : FrameQueue)
    → Owns q.heap q.buffer_size q.fresh n q.free_list
    → let q' = with_buffer q in Owns q'.heap q'.buffer_size q'.fresh (1 + n) q'.free_list
with_buffer-Owns n q o =
    Owns-order (q.fresh ∷ q.free_list) _
      (λ r. omega (arith, occ-append r q.free_list (q.fresh ∷ [])))
      (omega (arith, permanents-append _ q.free_list (q.fresh ∷ [])))
      (Owns-add q.free_list (new_buffer q.buffer_size false) (omega arith) refl o)

-- `n` permanent buffers, `k` of them new.
record Allocated (k n : ℕ) (q q' : FrameQueue) : Type 0 where
  owns : Owns q'.heap q'.buffer_size q'.fresh n q'.free_list
  pending : q'.pending ≡ q.pending
  encoded : q'.encoded_frame_queue ≡ q.encoded_frame_queue
  capacity : q'.capacity ≡ q.capacity
  buffer_size : q'.buffer_size ≡ q.buffer_size

Allocated-next :
    (k n : ℕ) (q : FrameQueue)
    → Allocated k (1 + n + k) (with_buffer q) (allocate k (with_buffer q))
    → Allocated (suc k) (n + suc k) q (allocate (suc k) q)
unfolding allocate
Allocated-next k n q a = record {
  owns =
      subst
        (λ c.
          let q' = allocate k (with_buffer q) in
          Owns q'.heap q'.buffer_size q'.fresh c q'.free_list)
        regroup a.owns;
  pending = a.pending;
  encoded = a.encoded;
  capacity = a.capacity;
  buffer_size = a.buffer_size;
}
  where
    regroup : 1 + n + k ≡ n + suc k
    regroup = omega arith

allocate-Allocated :
    (k n : ℕ) (q : FrameQueue)
    → Owns q.heap q.buffer_size q.fresh n q.free_list
    → Allocated k (n + k) q (allocate k q)
unfolding allocate
allocate-Allocated zero n q o = record {
  owns = subst (λ c. Owns q.heap q.buffer_size q.fresh c q.free_list) (sym (add-zero n)) o;
  pending = refl;
  encoded = refl;
  capacity = refl;
  buffer_size = refl;
}
allocate-Allocated (suc k) n q o =
    Allocated-next k n q (allocate-Allocated k (1 + n) (with_buffer q) (with_buffer-Owns n q o))

-- `Init` makes a valid queue of the given capacity and buffer size, with no frame in it, from a queue
-- in any state.
pub init-IsValid :
    (capacity buffer_size : ℕ) (q : FrameQueue)
    → let q' = init capacity buffer_size q in
      IsValid q'
      × (q'.capacity ≡ capacity)
      × (q'.buffer_size ≡ buffer_size)
      × (view q' ≡ record { frames = []; partial = [] })
unfolding init destroy
init-IsValid capacity buffer_size q = (
  record {
    owns =
        subst (λ c. Owns q'.heap q'.buffer_size q'.fresh c (owned q')) same
          (Owns-order q'.free_list (owned q')
            (λ r. omega (arith, occ-owned r q', ap (occ r) a.pending, ap (occ r) a.encoded))
            (omega (
              arith,
              permanents-owned q'.heap q',
              ap (permanents q'.heap) a.pending,
              ap (permanents q'.heap) a.encoded,
            ))
            a.owns);
    single = omega (arith, ap length a.pending);
  },
  a.capacity,
  a.buffer_size,
  λ i. record { frames = payloads q'.heap (a.encoded i); partial = payloads q'.heap (a.pending i) },
)
  where
    q₀ : FrameQueue
    q₀ = destroy (record q { inited = true; capacity = capacity; buffer_size = buffer_size })

    q' : FrameQueue
    q' = allocate capacity q₀

    nothing_owned : Owns q₀.heap buffer_size q₀.fresh 0 q₀.free_list
    nothing_owned = record {
      alive = λ p m. absurd (omega (arith, m));
      once = λ p. omega arith;
      counted = refl;
    }

    a : Allocated capacity (0 + capacity) q₀ q'
    a = allocate-Allocated capacity 0 q₀ nothing_owned

    same : 0 + capacity ≡ q'.capacity
    same = omega (arith, a.capacity)
