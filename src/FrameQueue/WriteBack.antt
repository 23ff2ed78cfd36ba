-- ===== src/FrameQueue/WriteBack.antt =====
-- The whole of `WriteBack`: when it goes wrong, and what it does to the stream when it does not.
use rpi_webrtc_streamer.Base.{
  ℕ, ◌≡◌, refl, ap, subst, ◌∙◌, ◌≢◌, ◌↔◌, ◌⊎◌, inl, inr, Bool, true, false, ◌&&◌, Option, none,
  some, List, [], ◌∷◌, arith, ◌==◌, lt→ltb, Bool-cases, le_or_lt, le→ltb_false, length,
}
use rpi_webrtc_streamer.FrameQueue.{
  MmalBuffer, FrameQueue, take_free, write_new, dispatch, write_back,
}
use rpi_webrtc_streamer.FrameQueue.Ownership.{Heap, occ-owned, permanents}
use rpi_webrtc_streamer.FrameQueue.TakeFree.{take_free-Outcome}
use rpi_webrtc_streamer.FrameQueue.TakeFree
use rpi_webrtc_streamer.FrameQueue.Stream
use rpi_webrtc_streamer.FrameQueue.Stream.{Stream, view}
use rpi_webrtc_streamer.FrameQueue.Filling.{IsValid, Writes, Ensures}
use rpi_webrtc_streamer.FrameQueue.Assertions.{Fills, Meets, write_back_in, write_back-Meets}
use rpi_webrtc_streamer.FrameQueue.Dispatching.{Starved, dispatch-Outcome}

write_back-Outcome :
    (m : MmalBuffer) (q : FrameQueue)
    → IsValid q
    → (Starved m q × (write_back m q ≡ none))
      ⊎ Ensures q (Stream.write q.buffer_size m (view q)) (write_back m q)
unfolding write_back Stream.write
write_back-Outcome m q v = elim (Bool-cases (length m.data_bytes == 0 && m.flags == 0)) [
  | inl nothing ↦ inr (rw nothing (unchanged true))
  | inr content ↦ elim (le_or_lt (length m.data_bytes) q.buffer_size) [
    | inl fits ↦
        rw (content, le→ltb_false _ _ fits) (dispatch-Outcome m q q.pending v content fits refl)
    | inr large ↦ inr (rw (content, lt→ltb _ _ large) (unchanged false))
  ]
]
  where
    unchanged : (ok : Bool) → Writes q (ok, view q) ok q
    unchanged ok = record { valid = v; refines = refl; same_size = refl; same_capacity = refl }

-- The loop finds nothing in a free list with temporary buffers only.
write_new-starved :
    (m : MmalBuffer) (q : FrameQueue) (fs : List ℕ)
    → TakeFree.Outcome q.heap fs (take_free q.heap fs)
    → fs ≢ []
    → permanents q.heap fs ≡ 0
    → write_new m q fs ≡ none
unfolding write_new
write_new-starved m q [] o some_free z = absurd (some_free refl)
write_new-starved m q (p ∷ ps) o some_free z = go (take_free q.heap (p ∷ ps)) refl o
  where
    go :
        (r : Option (ℕ × List ℕ × Heap))
        → take_free q.heap (p ∷ ps) ≡ r
        → TakeFree.Outcome q.heap (p ∷ ps) r
        → write_new m q (p ∷ ps) ≡ none
    go none e _ = rw (e, write_new)
    go (some (x, rest, heap')) e t = absurd (omega (arith, t.counted, z))

write_back-Starved :
    (m : MmalBuffer) (q : FrameQueue) → IsValid q → Starved m q → write_back m q ≡ none
unfolding write_back dispatch
write_back-Starved m q v s =
    simp (s.has_content, le→ltb_false _ _ s.fits)
      (ap (dispatch m q) s.nothing_pending
        ∙ write_new-starved m q q.free_list
            (take_free-Outcome q.heap q.free_list
              (λ r i. let (b, e, _, _) = v.owns.alive r (omega (arith, i, occ-owned r q)) in (b, e))
              (λ r. omega (arith, v.owns.once r, occ-owned r q)))
            s.has_free s.only_temporary)

-- On a valid queue `WriteBack` reaches undefined behaviour, `pop_front` of an empty free list,
-- exactly when the frame has content, fits into a buffer, no frame is pending, and the free list is
-- not empty but holds temporary buffers only.
pub write_back-none_iff :
    (m : MmalBuffer) (q : FrameQueue) → IsValid q → (write_back m q ≡ none) ↔ Starved m q
write_back-none_iff m q v = (starved (write_back-Outcome m q v), write_back-Starved m q v)
  where
    starved :
        (Starved m q × (write_back m q ≡ none))
          ⊎ Ensures q (Stream.write q.buffer_size m (view q)) (write_back m q)
        → write_back m q ≡ none
        → Starved m q
    starved (inl (s, _)) e = s
    starved (inr w) e = absurd (subst (Ensures q _) e w)

-- In a build with assertions `WriteBack` on a valid queue that `Init` has set up stops exactly when
-- the queue is starved for the frame, or when the frame, with what is pending before it, fills a
-- buffer to its last byte; its own guards accept such a frame.
pub write_back_in-none_iff :
    (m : MmalBuffer) (q : FrameQueue)
    → IsValid q
    → q.inited ≡ true
    → (write_back_in true m q ≡ none) ↔ Starved m q ⊎ Fills m q
unfolding write_back_in
write_back_in-none_iff m q v ready = (stops (write_back-Meets m q v ready), stopped)
  where
    stops : Meets m q → write_back_in true m q ≡ none → Starved m q ⊎ Fills m q
    stops (inl e) _ = inl ((write_back-none_iff m q v).0 e)
    stops (inr (inl (holds, _))) e = inl ((write_back-none_iff m q v).0 (ground (arith, holds, e)))
    stops (inr (inr (_, full))) e = inr full

    full_stops : Fills m q → Meets m q → write_back_in true m q ≡ none
    full_stops full (inl e) = ground (arith, e)
    full_stops full (inr (inl (_, room))) = absurd (room full)
    full_stops full (inr (inr (fails, _))) = ground (arith, fails)

    stopped : Starved m q ⊎ Fills m q → write_back_in true m q ≡ none
    stopped (inl s) = ground (arith, write_back-Starved m q v s)
    stopped (inr full) = full_stops full (write_back-Meets m q v ready)

-- On a valid queue that is not starved for the frame `WriteBack` returns, the queue stays valid with
-- its capacity and buffer size, and the result and the stream of frames are those of `Stream.write`.
-- In a build with assertions this holds if `Init` has been called and the frame, with what is
-- pending before it, does not fill a buffer to its last byte.
pub write_back_refines :
    (dchecks : Bool) (m : MmalBuffer) (q : FrameQueue)
    → IsValid q
    → ¬ Starved m q
    → (dchecks ≡ true → (q.inited ≡ true) × ¬ Fills m q)
    → (ok : Bool) × (q' : FrameQueue) × (write_back_in dchecks m q ≡ some (ok, q'))
      × Writes q (Stream.write q.buffer_size m (view q)) ok q'
unfolding write_back_in
write_back_refines dchecks m q v fed asserted =
    let (ok, q', e, w) = returned (write_back m q) (unstarved (write_back-Outcome m q v)) in
    (ok, q', same_in dchecks asserted ∙ e, w)
  where
    unstarved :
        (Starved m q × (write_back m q ≡ none))
          ⊎ Ensures q (Stream.write q.buffer_size m (view q)) (write_back m q)
        → Ensures q (Stream.write q.buffer_size m (view q)) (write_back m q)
    unstarved (inl (s, _)) = absurd (fed s)
    unstarved (inr w) = w

    returned :
        (r : Option (Bool × FrameQueue))
        → Ensures q (Stream.write q.buffer_size m (view q)) r
        → (ok : Bool) × (q' : FrameQueue) × (r ≡ some (ok, q'))
          × Writes q (Stream.write q.buffer_size m (view q)) ok q'
    returned none w = absurd w
    returned (some (ok, q')) w = (ok, q', refl, w)

    passes : ¬ Fills m q → Meets m q → write_back_in true m q ≡ write_back m q
    passes room (inl e) = absurd (fed ((write_back-none_iff m q v).0 e))
    passes room (inr (inl (holds, _))) = ground (arith, holds)
    passes room (inr (inr (_, full))) = absurd (room full)

    same_in :
        (b : Bool)
        → (b ≡ true → (q.inited ≡ true) × ¬ Fills m q)
        → write_back_in b m q ≡ write_back m q
    same_in false h = refl
    same_in true h = passes (h refl).1 (write_back-Meets m q v (h refl).0)
