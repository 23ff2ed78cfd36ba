-- ===== src/FrameQueue/Filling.antt =====
-- The buffer that `WriteBack` has taken is filled: the queue stays valid, and its stream does what
-- `Stream.start` says.
use rpi_webrtc_streamer.Base.{
  ℕ, ◌≤◌, ◌≡◌, refl, ap, ap₂, ◌∙◌, inl, inr, Bool, true, Option, none, some, List, [], ◌∷◌, ◌++◌,
  arith, Bool-cases, length, length-append, occ, occ-append, occ_head, occ_self, update,
  update_self,
}
use mathlib.Core.List.{map-append}
use rpi_webrtc_streamer.FrameQueue.{
  MmalBuffer, FrameBuffer, FrameQueue, reset, copy, is_config, fill_buffer,
}
use rpi_webrtc_streamer.FrameQueue.Ownership.{
  Heap, permanents, permanents-append, owned, Agree, update-Agree,
}
use rpi_webrtc_streamer.FrameQueue.Owns.{Owns, Owns-order, Owns-update}
use rpi_webrtc_streamer.FrameQueue.Stream
use rpi_webrtc_streamer.FrameQueue.Stream.{Stream, Payload, payload, payloads, view}

pub record IsValid (q : FrameQueue) : Type 0 where
  pub owns : Owns q.heap q.buffer_size q.fresh q.capacity (owned q)
  pub single : length q.pending ≤ 1

-- A step from `q` on which the stream does what `s` says.
pub record Writes (q : FrameQueue) (s : Bool × Stream) (ok : Bool) (q' : FrameQueue) : Type 0 where
  pub valid : IsValid q'
  pub refines : (ok, view q') ≡ s
  pub same_size : q'.buffer_size ≡ q.buffer_size
  pub same_capacity : q'.capacity ≡ q.capacity

abbrev pub Ensures : FrameQueue → Bool × Stream → Option (Bool × FrameQueue) → Type 0
Ensures q s none = ⊥
Ensures q s (some (ok, q')) = Writes q s ok q'

pub payloads-Agree : (h h' : Heap) (ps : List ℕ) → Agree h h' ps → payloads h ps ≡ payloads h' ps
payloads-Agree h h' [] a = refl
payloads-Agree h h' (p ∷ ps) a =
    ap₂ ◌∷◌ (ap payload (a p (occ_head p ps)))
      (payloads-Agree h h' ps (λ q m. a q (omega (arith, m))))

pub Stream_path :
    (ok : Bool) {f f' p p' : List Payload}
    → f ≡ f'
    → p ≡ p'
    → ◌≡◌ {A = Bool × Stream}
        (ok, record { frames = f; partial = p })
        (ok, record { frames = f'; partial = p' })
Stream_path ok e e' = λ i. (ok, record { frames = e i; partial = e' i })

pub payloads-push :
    (h : Heap) (ps : List ℕ) (p : ℕ) (b : FrameBuffer)
    → occ p ps ≡ 0
    → payloads (update h p (some b)) (ps ++ (p ∷ [])) ≡ payloads h ps ++ ((b.flags, b.content) ∷ [])
payloads-push h ps p b z =
    map-append _ ps (p ∷ [])
    ∙ ap₂ ◌++◌ (payloads-Agree _ h ps (update-Agree h p (some b) ps z))
        (ap (λ o. payload o ∷ []) (update_self h p (some b)))

module _ (p : ℕ) (m : MmalBuffer) (q : FrameQueue) (empty : q.pending ≡ [])
    (fits : length m.data_bytes ≤ q.buffer_size)
    (o : Owns q.heap q.buffer_size q.fresh q.capacity (p ∷ (q.encoded_frame_queue ++ q.free_list)))
    (b : FrameBuffer) (e : q.heap p ≡ some b) where
  abbrev filled : FrameBuffer
  filled = copy (reset b) m

  abbrev heap_filled : Heap
  heap_filled = update q.heap p (some filled)

  absent : (occ p q.encoded_frame_queue ≡ 0)
  absent = omega (
    arith,
    o.once p,
    occ_self p (q.encoded_frame_queue ++ q.free_list),
    occ-append p q.encoded_frame_queue q.free_list,
  )

  stays :
      Owns heap_filled q.buffer_size q.fresh q.capacity (p ∷ (q.encoded_frame_queue ++ q.free_list))
  stays = Owns-update _ p b filled e refl refl fits o

  -- A configuration frame waits for the frame that follows it.
  filled_pending :
      Writes q
        (true, record (view q) { partial = (filled.flags, filled.content) ∷ [] })
        true
        (record q { heap = heap_filled; pending = q.pending ++ (p ∷ []) })
  filled_pending = record {
    valid = record {
      owns =
          Owns-order (p ∷ (q.encoded_frame_queue ++ q.free_list)) _ same_occ same_permanents stays;
      single = omega (arith, length-append q.pending (p ∷ []), ap length empty);
    };
    refines =
        Stream_path true
          (payloads-Agree heap_filled q.heap q.encoded_frame_queue
            (update-Agree q.heap p (some filled) q.encoded_frame_queue absent))
          (payloads-push q.heap q.pending p filled (ap (occ p) empty)
            ∙ ap (λ ps. payloads q.heap ps ++ ((filled.flags, filled.content) ∷ [])) empty);
    same_size = refl;
    same_capacity = refl;
  }
    where
      rest : List ℕ
      rest = q.encoded_frame_queue ++ q.free_list

      same_occ : (r : ℕ) → occ r ((q.pending ++ (p ∷ [])) ++ rest) ≡ occ r (p ∷ rest)
      same_occ r = ap (λ ps. occ r ((ps ++ (p ∷ [])) ++ rest)) empty

      same_permanents :
          permanents heap_filled ((q.pending ++ (p ∷ [])) ++ rest)
          ≡ permanents heap_filled (p ∷ rest)
      same_permanents = ap (λ ps. permanents heap_filled ((ps ++ (p ∷ [])) ++ rest)) empty

  -- Any other frame is complete.
  filled_encoded :
      Writes q
        (true, Stream.complete (view q) (filled.flags, filled.content))
        true
        (record q {
          heap = heap_filled;
          encoded_frame_queue = q.encoded_frame_queue ++ (p ∷ []);
          event = true;
        })
  filled_encoded = record {
    valid = record {
      owns =
          Owns-order (p ∷ (q.encoded_frame_queue ++ q.free_list)) _ same_occ same_permanents stays;
      single = omega (arith, ap length empty);
    };
    refines =
        Stream_path true (payloads-push q.heap q.encoded_frame_queue p filled absent)
          (ap (payloads heap_filled) empty);
    same_size = refl;
    same_capacity = refl;
  }
    where
      open q use {encoded_frame_queue as enc, free_list}

      same_occ :
          (r : ℕ)
          → occ r (q.pending ++ ((enc ++ (p ∷ [])) ++ free_list)) ≡ occ r (p ∷ (enc ++ free_list))
      same_occ r = omega (
        arith,
        ap (λ ps. occ r (ps ++ ((enc ++ (p ∷ [])) ++ free_list))) empty,
        occ-append r (enc ++ (p ∷ [])) free_list,
        occ-append r enc (p ∷ []),
        occ-append r enc free_list,
      )

      same_permanents :
          permanents heap_filled (q.pending ++ ((enc ++ (p ∷ [])) ++ free_list))
          ≡ permanents heap_filled (p ∷ (enc ++ free_list))
      same_permanents = omega (
        arith,
        ap (λ ps. permanents heap_filled (ps ++ ((enc ++ (p ∷ [])) ++ free_list))) empty,
        permanents-append heap_filled (enc ++ (p ∷ [])) free_list,
        permanents-append heap_filled enc (p ∷ []),
        permanents-append heap_filled enc free_list,
      )

pub fill_buffer-Ensures :
    (p : ℕ) (m : MmalBuffer) (q : FrameQueue)
    → q.pending ≡ []
    → length m.data_bytes ≤ q.buffer_size
    → Owns q.heap q.buffer_size q.fresh q.capacity (p ∷ (q.encoded_frame_queue ++ q.free_list))
    → Ensures q (Stream.start m (view q)) (fill_buffer p m q)
unfolding fill_buffer
fill_buffer-Ensures p m q empty fits o =
    let (b, e, len, lt) = o.alive p (occ_head p (q.encoded_frame_queue ++ q.free_list)) in
    elim (Bool-cases (is_config (copy (reset b) m))) [
      | inl config ↦ rw (e, config, fill_buffer) (filled_pending p m q empty fits o b e)
      | inr whole ↦ rw (e, whole, fill_buffer) (filled_encoded p m q empty fits o b e)
    ]
