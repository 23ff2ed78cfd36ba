-- ===== src/FrameQueue/Dispatching.antt =====
-- What `WriteBack` does with a frame that its guards accept, in each way that it dispatches it.
use rpi_webrtc_streamer.Base.{
  ℕ, ◌+◌, ◌≤◌, ◌<◌, ◌≡◌, refl, sym, ap, subst, ◌∙◌, ◌≢◌, ◌⊎◌, inl, inr, Bool, true, false, ◌&&◌,
  Option, none, some, List, [], ◌∷◌, ◌++◌, arith, ◌==◌, length, occ, occ-append, update,
}
use rpi_webrtc_streamer.FrameQueue.{
  MmalBuffer, FrameBuffer, FrameQueue, new_buffer, take_free, fill_buffer, write_new, dispatch,
}
use rpi_webrtc_streamer.FrameQueue.Ownership.{Heap, permanents, Agree, update-Agree}
use rpi_webrtc_streamer.FrameQueue.TakeFree.{Takes, take_free-Outcome}
use rpi_webrtc_streamer.FrameQueue.TakeFree
use rpi_webrtc_streamer.FrameQueue.Owns.{Owns, IsAlive, Owns-fresh, Owns-take, Owns-new}
use rpi_webrtc_streamer.FrameQueue.Stream
use rpi_webrtc_streamer.FrameQueue.Stream.{Stream, payloads, view}
use rpi_webrtc_streamer.FrameQueue.Filling.{
  IsValid, Ensures, Stream_path, payloads-Agree, fill_buffer-Ensures,
}
use rpi_webrtc_streamer.FrameQueue.Joining.{write_pending-Ensures}

-- The calls that go wrong: a frame with content, no larger than a buffer, comes while no frame is
-- pending, the free list is not empty, and it has no permanent buffer.
pub record Starved (m : MmalBuffer) (q : FrameQueue) : Type 0 where
  pub has_content : (length m.data_bytes == 0 && m.flags == 0) ≡ false
  pub fits : length m.data_bytes ≤ q.buffer_size
  pub nothing_pending : q.pending ≡ []
  pub has_free : q.free_list ≢ []
  pub only_temporary : permanents q.heap q.free_list ≡ 0

-- The result of a fill is the same for the queue before a buffer was taken.
Ensures-before :
    (q q₁ : FrameQueue) (s : Bool × Stream) (r : Option (Bool × FrameQueue))
    → q₁.buffer_size ≡ q.buffer_size
    → q₁.capacity ≡ q.capacity
    → Ensures q₁ s r
    → Ensures q s r
Ensures-before q q₁ s none a b w = w
Ensures-before q q₁ s (some (ok, q')) a b w = record {
  valid = w.valid;
  refines = w.refines;
  same_size = w.same_size ∙ a;
  same_capacity = w.same_capacity ∙ b;
}

view-Agree :
    (q : FrameQueue) (heap' : Heap)
    → q.pending ≡ []
    → Agree heap' q.heap q.encoded_frame_queue
    → ◌≡◌ {A = Stream}
        (record {
          frames = payloads heap' q.encoded_frame_queue;
          partial = payloads heap' q.pending;
        })
        (view q)
view-Agree q heap' pending a =
    let same : payloads heap' q.pending ≡ payloads q.heap q.pending =
      ap (payloads heap') pending ∙ ap (payloads q.heap) (sym pending) in
    ap (λ r. r.1) (Stream_path true (payloads-Agree heap' q.heap q.encoded_frame_queue a) same)

module _ (m : MmalBuffer) (q : FrameQueue) (pending : q.pending ≡ [])
    (fits : length m.data_bytes ≤ q.buffer_size)
    (o : Owns q.heap q.buffer_size q.fresh q.capacity (q.encoded_frame_queue ++ q.free_list)) where
  open q use {encoded_frame_queue as enc, free_list}

  -- A new temporary buffer takes the frame when no buffer is free.
  write_new_empty : Ensures q (Stream.start m (view q)) (write_new m q [])
  unfolding write_new
  write_new_empty =
      let b : FrameBuffer = new_buffer q.buffer_size true in
      let q₁ : FrameQueue = record q {
        heap = update q.heap q.fresh (some b);
        fresh = q.fresh + 1;
      } in
      let absent : occ q.fresh enc ≡ 0 =
        omega (arith, Owns-fresh (enc ++ free_list) o, occ-append q.fresh enc free_list) in
      subst (λ s. Ensures q (Stream.start m s) (fill_buffer q.fresh m q₁))
        (view-Agree q q₁.heap pending (update-Agree q.heap q.fresh (some b) enc absent))
        (Ensures-before q q₁ _ (fill_buffer q.fresh m q₁) refl refl (
          fill_buffer-Ensures q.fresh m q₁ pending fits
            (Owns-new (enc ++ free_list) b refl (omega arith) refl o)))

  -- A buffer that the loop found takes the frame.
  write_new_taken :
      (p x : ℕ) (ps rest : List ℕ) (heap' : Heap)
      → free_list ≡ p ∷ ps
      → Takes q.heap (p ∷ ps) x rest heap'
      → Ensures q
          (Stream.start m (view q))
          (fill_buffer x m (record q { heap = heap'; free_list = rest }))
  write_new_taken p x ps rest heap' free t =
      let q₁ : FrameQueue = record q { heap = heap'; free_list = rest } in
      subst (λ s. Ensures q (Stream.start m s) (fill_buffer x m q₁))
        (view-Agree q heap' pending encoded_same)
        (Ensures-before q q₁ _ (fill_buffer x m q₁) refl refl
          (fill_buffer-Ensures x m q₁ pending fits (Owns-take enc (p ∷ ps) t owns_free)))
    where
      owns_free : Owns q.heap q.buffer_size q.fresh q.capacity (enc ++ (p ∷ ps))
      owns_free = subst (λ fs. Owns q.heap q.buffer_size q.fresh q.capacity (enc ++ fs)) free o

      encoded_same : Agree heap' q.heap enc
      encoded_same r i = t.others r (omega (arith, i, owns_free.once r, occ-append r enc (p ∷ ps)))

  -- What `WriteBack` does with no pending frame, the free list given as `fs`.
  write_new-Outcome :
      (fs : List ℕ)
      → free_list ≡ fs
      → ((write_new m q fs ≡ none) × (fs ≢ []) × (permanents q.heap fs ≡ 0))
        ⊎ Ensures q (Stream.start m (view q)) (write_new m q fs)
  unfolding write_new
  write_new-Outcome [] free = inr write_new_empty
  write_new-Outcome (p ∷ ps) free = go (take_free q.heap (p ∷ ps)) refl (
      take_free-Outcome q.heap (p ∷ ps) (λ r i. let (b, e, _, _) = alive r i in (b, e))
        (λ r. omega (arith, o.once r, occ-append r enc free_list, ap (occ r) free)))
    where
      alive : (r : ℕ) → 0 < occ r (p ∷ ps) → IsAlive q.heap q.buffer_size q.fresh r
      alive r i = o.alive r (omega (arith, i, occ-append r enc free_list, ap (occ r) free))

      go :
          (r : Option (ℕ × List ℕ × Heap))
          → take_free q.heap (p ∷ ps) ≡ r
          → TakeFree.Outcome q.heap (p ∷ ps) r
          → ((write_new m q (p ∷ ps) ≡ none) × ((p ∷ ps) ≢ []) × (permanents q.heap (p ∷ ps) ≡ 0))
            ⊎ Ensures q (Stream.start m (view q)) (write_new m q (p ∷ ps))
      go none e z = inl (rw (e, write_new), (λ k. cc), z)
      go (some (x, rest, heap')) e t =
          inr (rw (e, write_new) (write_new_taken p x ps rest heap' free t))

-- What `WriteBack` does with a frame of an accepted size, the pending buffers given as `ps`.
pub dispatch-Outcome :
    (m : MmalBuffer) (q : FrameQueue) (ps : List ℕ)
    → IsValid q
    → (length m.data_bytes == 0 && m.flags == 0) ≡ false
    → length m.data_bytes ≤ q.buffer_size
    → q.pending ≡ ps
    → (Starved m q × (dispatch m q ps ≡ none))
      ⊎ Ensures q (Stream.accept q.buffer_size m (view q) (payloads q.heap ps)) (dispatch m q ps)
unfolding dispatch
dispatch-Outcome m q [] v content fits e =
    elim (write_new-Outcome m q e fits
      (subst
        (λ ps.
          Owns q.heap q.buffer_size q.fresh q.capacity
            (ps ++ (q.encoded_frame_queue ++ q.free_list)))
        e v.owns)
      q.free_list refl) [
        | inl (stops, free, temporary) ↦ inl (
          record {
            has_content = content;
            fits = fits;
            nothing_pending = e;
            has_free = free;
            only_temporary = temporary;
          },
          stops,
        )
        | inr w ↦ inr w
      ]
dispatch-Outcome m q (p ∷ []) v content fits e = inr (
    write_pending-Ensures p m q e (
      subst
        (λ ps.
          Owns q.heap q.buffer_size q.fresh q.capacity
            (ps ++ (q.encoded_frame_queue ++ q.free_list)))
        e v.owns))
dispatch-Outcome m q (p ∷ r ∷ ps) v content fits e = absurd (omega (arith, v.single, ap length e))
