-- ===== src/FrameQueue/Stream.antt =====
-- What the frame queue promises: a sequence of whole frames, and at most one frame whose first part,
-- a configuration frame, has arrived. Heap, free list and temporary buffers are not part of it.
use rpi_webrtc_streamer.Base.{
  ℕ, ◌+◌, ◌%◌, Bool, true, false, ◌&&◌, Option, none, some, List, [], ◌∷◌, ◌++◌, map, ltb, ◌==◌,
  if◌then◌else◌, length,
}
use rpi_webrtc_streamer.FrameQueue.{
  MmalBuffer, flag_set, frame_flag_end, frame_flag_config, FrameBuffer, FrameQueue,
}

-- The flags and the bytes of a frame.
abbrev pub Payload : Type 0
Payload = ℕ × List ℕ

pub record Stream : Type 0 where
  pub frames : List Payload
  pub partial : List Payload

abbrev pub complete : Stream → Payload → Stream
complete s f = record { frames = s.frames ++ (f ∷ []); partial = [] }

-- The first part of a frame arrives.
abbrev pub start : MmalBuffer → Stream → Bool × Stream
start m s =
    let f : Payload = (m.flags % 256, m.data_bytes) in
    if flag_set frame_flag_config (m.flags % 256)
    then (true, record s { partial = f ∷ [] })
    else (true, complete s f)

-- A further part arrives, for a frame of `size` bytes at most.
abbrev pub join : ℕ → MmalBuffer → Payload → Stream → Bool × Stream
join size m first s =
    let f : Payload = (m.flags % 256, first.1 ++ m.data_bytes) in
    if ltb size (length first.1 + length m.data_bytes)
    then (false, record s { partial = [] })
    else (if flag_set frame_flag_end (m.flags % 256)
        then (true, complete s f)
        else (true, record s { partial = f ∷ [] }))

abbrev pub accept : ℕ → MmalBuffer → Stream → List Payload → Bool × Stream
accept size m s [] = start m s
accept size m s (f ∷ _) = join size m f s

unfoldable pub write : ℕ → MmalBuffer → Stream → Bool × Stream
write size m s =
    if length m.data_bytes == 0 && m.flags == 0
    then (true, s)
    else (if ltb size (length m.data_bytes) then (false, s) else accept size m s s.partial)

abbrev pub read_frames : Stream → List Payload → Option Payload × Stream
read_frames s [] = (none, s)
read_frames s (f ∷ fs) = (some f, record s { frames = fs })

unfoldable pub read : Stream → Option Payload × Stream
read s = read_frames s s.frames

abbrev pub payload : Option FrameBuffer → Payload
payload none = (0, [])
payload (some b) = (b.flags, b.content)

abbrev pub payloads : (ℕ → Option FrameBuffer) → List ℕ → List Payload
payloads heap ps = map (λ p. payload (heap p)) ps

-- The stream that a queue holds.
abbrev pub view : FrameQueue → Stream
view q = record {
  frames = payloads q.heap q.encoded_frame_queue;
  partial = payloads q.heap q.pending;
}
