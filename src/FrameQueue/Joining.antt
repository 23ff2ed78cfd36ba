-- ===== src/FrameQueue/Joining.antt =====
-- `WriteBack` with a pending buffer: the queue stays valid, and its stream does what `Stream.join`
-- says.
use rpi_webrtc_streamer.Base.{
  ℕ, ◌+◌, ◌≤◌, ◌≡◌, refl, sym, ap, subst, ◌∙◌, inl, inr, true, false, some, [], ◌∷◌, ◌++◌, arith,
  lt→ltb, Bool-cases, le_or_lt, le→ltb_false, length, length-append, occ, occ-append, occ_head,
  occ_self, update, update_self,
}
use rpi_webrtc_streamer.FrameQueue.{
  MmalBuffer, FrameBuffer, FrameQueue, append, is_frame_end, write_pending,
}
use rpi_webrtc_streamer.FrameQueue.Ownership.{Heap, permanents, permanents-append, update-Agree}
use rpi_webrtc_streamer.FrameQueue.Owns.{Owns, Owns-order, Owns-update}
use rpi_webrtc_streamer.FrameQueue.Stream
use rpi_webrtc_streamer.FrameQueue.Stream.{payload, payloads, view}
use rpi_webrtc_streamer.FrameQueue.Filling.{
  Writes, Ensures, Stream_path, payloads-Agree, payloads-push,
}

module _ (p : ℕ) (m : MmalBuffer) (q : FrameQueue) (pending : q.pending ≡ p ∷ [])
    (o : Owns q.heap q.buffer_size q.fresh q.capacity (p ∷ (q.encoded_frame_queue ++ q.free_list)))
    (b : FrameBuffer) (e : q.heap p ≡ some b) where
  open q use {encoded_frame_queue as enc, free_list}

  abbrev joined : FrameBuffer
  joined = append b m

  abbrev heap_joined : Heap
  heap_joined = update q.heap p (some joined)

  absent : occ p enc ≡ 0
  absent = omega (arith, o.once p, occ_self p (enc ++ free_list), occ-append p enc free_list)

  -- A frame that grows too large is dropped, and its buffer is free again.
  joined_too_large :
      Writes q
        (false, record (view q) { partial = [] })
        false
        (record q { free_list = free_list ++ (p ∷ []); pending = [] })
  joined_too_large = record {
    valid = record {
      owns =
          Owns-order (p ∷ (enc ++ free_list)) (enc ++ (free_list ++ (p ∷ []))) same_occ
            same_permanents o;
      single = omega arith;
    };
    refines = refl;
    same_size = refl;
    same_capacity = refl;
  }
    where
      same_occ : (r : ℕ) → occ r (enc ++ (free_list ++ (p ∷ []))) ≡ occ r (p ∷ (enc ++ free_list))
      same_occ r = omega (
        arith,
        occ-append r enc (free_list ++ (p ∷ [])),
        occ-append r free_list (p ∷ []),
        occ-append r enc free_list,
      )

      same_permanents :
          permanents q.heap (enc ++ (free_list ++ (p ∷ [])))
          ≡ permanents q.heap (p ∷ (enc ++ free_list))
      same_permanents = omega (
        arith,
        permanents-append q.heap enc (free_list ++ (p ∷ [])),
        permanents-append q.heap free_list (p ∷ []),
        permanents-append q.heap enc free_list,
      )

  module _ (fits : length joined.content ≤ q.buffer_size) where
    stays : Owns heap_joined q.buffer_size q.fresh q.capacity (p ∷ (enc ++ free_list))
    stays = Owns-update _ p b joined e refl refl fits o

    frames_same : payloads heap_joined enc ≡ payloads q.heap enc
    frames_same =
        payloads-Agree heap_joined q.heap enc (update-Agree q.heap p (some joined) enc absent)

    -- The last part completes the frame.
    joined_last :
        Writes q
          (true, Stream.complete (view q) (joined.flags, joined.content))
          true
          (record q {
            heap = heap_joined;
            pending = [];
            encoded_frame_queue = enc ++ (p ∷ []);
            event = true;
          })
    joined_last = record {
      valid = record {
        owns =
            Owns-order (p ∷ (enc ++ free_list)) ((enc ++ (p ∷ [])) ++ free_list) same_occ
              same_permanents stays;
        single = omega arith;
      };
      refines = Stream_path true (payloads-push q.heap enc p joined absent) refl;
      same_size = refl;
      same_capacity = refl;
    }
      where
        same_occ : (r : ℕ) → occ r ((enc ++ (p ∷ [])) ++ free_list) ≡ occ r (p ∷ (enc ++ free_list))
        same_occ r = omega (
          arith,
          occ-append r (enc ++ (p ∷ [])) free_list,
          occ-append r enc (p ∷ []),
          occ-append r enc free_list,
        )

        same_permanents :
            permanents heap_joined ((enc ++ (p ∷ [])) ++ free_list)
            ≡ permanents heap_joined (p ∷ (enc ++ free_list))
        same_permanents = omega (
          arith,
          permanents-append heap_joined (enc ++ (p ∷ [])) free_list,
          permanents-append heap_joined enc (p ∷ []),
          permanents-append heap_joined enc free_list,
        )

    -- Any other part leaves the frame pending.
    joined_more :
        Writes q
          (true, record (view q) { partial = (joined.flags, joined.content) ∷ [] })
          true
          (record q { heap = heap_joined })
    joined_more = record {
      valid = record {
        owns =
            subst
              (λ ps. Owns heap_joined q.buffer_size q.fresh q.capacity (ps ++ (enc ++ free_list)))
              (sym pending) stays;
        single = omega (arith, ap length pending);
      };
      refines = Stream_path true frames_same (
          ap (payloads heap_joined) pending
          ∙ ap (λ x. payload x ∷ []) (update_self q.heap p (some joined)));
      same_size = refl;
      same_capacity = refl;
    }

pub write_pending-Ensures :
    (p : ℕ) (m : MmalBuffer) (q : FrameQueue)
    → q.pending ≡ p ∷ []
    → Owns q.heap q.buffer_size q.fresh q.capacity (p ∷ (q.encoded_frame_queue ++ q.free_list))
    → Ensures q
        (Stream.join q.buffer_size m (payload (q.heap p)) (view q))
        (write_pending m q p p [])
unfolding write_pending
write_pending-Ensures p m q pending o =
    let (b, e, len, lt) = o.alive p (occ_head p (q.encoded_frame_queue ++ q.free_list)) in
    elim (le_or_lt (length b.content + length m.data_bytes) q.buffer_size) [
      | inl fits ↦ elim (Bool-cases (is_frame_end (append b m))) [
        | inl last ↦
            rw (e, le→ltb_false _ _ fits, last, write_pending)
              (joined_last p m q pending o b e
                (omega (arith, length-append b.content m.data_bytes)))
        | inr more ↦
            rw (e, le→ltb_false _ _ fits, more, write_pending)
              (joined_more p m q pending o b e
                (omega (arith, length-append b.content m.data_bytes)))
      ]
      | inr large ↦ rw (e, lt→ltb _ _ large, write_pending) (joined_too_large p m q pending o b e)
    ]
