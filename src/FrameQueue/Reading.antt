-- ===== src/FrameQueue/Reading.antt =====
-- `ReadFront` and `clear`: they keep the queue valid, and `ReadFront` takes the oldest frame.
use rpi_webrtc_streamer.Base.{
  ℕ, ◌≡◌, refl, sym, ap, Bool, false, ◌&&◌, Option, none, some, List, [], ◌∷◌, ◌++◌, arith, ◌==◌,
  if◌then◌else◌, if_cases, length, occ, occ-append,
}
use rpi_webrtc_streamer.FrameQueue.{FrameQueue, clear, take_front, read_front}
use rpi_webrtc_streamer.FrameQueue.Ownership.{
  occ-owned, permanents, permanents-append, permanents-owned, owned,
}
use rpi_webrtc_streamer.FrameQueue.Owns.{Owns-order}
use rpi_webrtc_streamer.FrameQueue.Stream
use rpi_webrtc_streamer.FrameQueue.Stream.{Stream, Payload, payload, payloads, view}
use rpi_webrtc_streamer.FrameQueue.Filling.{IsValid}

-- What a reader sees: the contents of the buffer that it is handed.
abbrev pub frame_at : FrameQueue → Option ℕ → Option Payload
frame_at q none = none
frame_at q (some p) = some (payload (q.heap p))

clear-IsValid : (q : FrameQueue) → IsValid q → IsValid (clear q)
unfolding clear
clear-IsValid q v = record {
  owns =
      Owns-order (owned q) _
        (λ r. omega (
          arith,
          occ-append r q.pending (q.free_list ++ q.encoded_frame_queue),
          occ-append r q.free_list q.encoded_frame_queue,
          occ-owned r q,
        ))
        (omega (
          arith,
          permanents-append q.heap q.pending (q.free_list ++ q.encoded_frame_queue),
          permanents-append q.heap q.free_list q.encoded_frame_queue,
          permanents-owned q.heap q,
        ))
        v.owns;
  single = v.single;
}

-- The buffer that is read goes to the back of the free list.
take_front-IsValid :
    (q : FrameQueue) (ps : List ℕ)
    → q.encoded_frame_queue ≡ ps
    → IsValid q
    → IsValid (take_front ps q).1
unfolding take_front
take_front-IsValid q [] e v = v
take_front-IsValid q (p ∷ ps) e v = record {
  owns =
      Owns-order (owned q) (q.pending ++ (ps ++ (q.free_list ++ (p ∷ []))))
        (λ r. omega (
          arith,
          occ-append r q.pending (ps ++ (q.free_list ++ (p ∷ []))),
          occ-append r ps (q.free_list ++ (p ∷ [])),
          occ-append r q.free_list (p ∷ []),
          occ-owned r q,
          ap (occ r) e,
        ))
        (omega (
          arith,
          permanents-append q.heap q.pending (ps ++ (q.free_list ++ (p ∷ []))),
          permanents-append q.heap ps (q.free_list ++ (p ∷ [])),
          permanents-append q.heap q.free_list (p ∷ []),
          permanents-owned q.heap q,
          ap (permanents q.heap) e,
        ))
        v.owns;
  single = v.single;
}

take_front-read :
    (q : FrameQueue) (ps : List ℕ)
    → q.encoded_frame_queue ≡ ps
    → let (p, q') = take_front ps q in
      ◌≡◌ {A = Option Payload × Stream} (frame_at q' p, view q') (Stream.read (view q))
unfolding take_front Stream.read
take_front-read q [] e = sym (ap (λ ps. Stream.read_frames (view q) (payloads q.heap ps)) e)
take_front-read q (p ∷ ps) e = sym (ap (λ ps. Stream.read_frames (view q) (payloads q.heap ps)) e)

-- The queue that `ReadFront` looks at, after its wait if it waits.
abbrev pub waited : Bool → (FrameQueue → FrameQueue) → FrameQueue → FrameQueue
waited wait_until_timeout arrived q =
    if length q.encoded_frame_queue == 0 && wait_until_timeout
    then record (arrived q) { event = false }
    else q

-- `ReadFront` keeps a valid queue valid, and hands out the oldest frame of the stream that it finds
-- after its wait; it returns no buffer if there is none.
pub read_front_lem :
    (wait : Bool) (arrived : FrameQueue → FrameQueue) (q : FrameQueue)
    → IsValid q
    → IsValid (arrived q)
    → let (p, q') = read_front wait arrived q in
      IsValid q'
      × (◌≡◌ {A = Option Payload × Stream}
          (frame_at q' p, view q')
          (Stream.read (view (waited wait arrived q))))
unfolding read_front
read_front_lem wait arrived q v w =
    let seen : FrameQueue = waited wait arrived q in
    let valid : IsValid seen =
      if_cases IsValid (length q.encoded_frame_queue == 0 && wait)
        (record { owns = w.owns; single = w.single }) v in
    (
      take_front-IsValid seen seen.encoded_frame_queue refl valid,
      take_front-read seen seen.encoded_frame_queue refl,
    )
