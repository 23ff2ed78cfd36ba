-- ===== src/FrameQueue/Tests.antt =====
-- Runs of frame_queue.cc on small queues, and its theorems at them.
use rpi_webrtc_streamer.Base.{
  ◌≡◌, refl, ◌↔◌, ◌⊎◌, Bool, true, false, Option, none, some, [], ◌∷◌, arith,
}
use rpi_webrtc_streamer.FrameQueue.{
  MmalBuffer, FrameQueue, allocate, delete_all, destroy, empty_queue, init, take_front, read_front,
  take_free, fill_buffer, write_new, write_pending, dispatch, write_back,
}
use rpi_webrtc_streamer.FrameQueue.Stream
use rpi_webrtc_streamer.FrameQueue.Stream.{Payload, view}
use rpi_webrtc_streamer.FrameQueue.Filling.{IsValid, Writes}
use rpi_webrtc_streamer.FrameQueue.WriteBack.{
  write_back-none_iff, write_back_refines, write_back_in-none_iff,
}
use rpi_webrtc_streamer.FrameQueue.Dispatching.{Starved}
use rpi_webrtc_streamer.FrameQueue.Assertions.{Fills, write_back_in, write_back_dcheck}
use rpi_webrtc_streamer.FrameQueue.Reading.{waited, frame_at, read_front_lem}
use rpi_webrtc_streamer.FrameQueue.Initial.{init-IsValid}

-- A whole frame: start and end flags.
abbrev whole : MmalBuffer
whole = record { flags = 6; data_bytes = 7 ∷ 8 ∷ [] }

-- A configuration frame, and the key frame that belongs to it.
abbrev config_part : MmalBuffer
config_part = record { flags = 36; data_bytes = 1 ∷ [] }

abbrev key_part : MmalBuffer
key_part = record { flags = 14; data_bytes = 2 ∷ 3 ∷ [] }

abbrev queue : FrameQueue
queue = init 2 4 empty_queue

-- Writes that are to succeed, and reads that do not wait.
abbrev written : MmalBuffer → FrameQueue → FrameQueue
written m q = elim (write_back m q) [ none ↦ q | some (ok, q') ↦ q' ]

abbrev was_read : FrameQueue → FrameQueue
was_read q = (read_front false (λ r. r) q).1

-- Three frames into a queue of two buffers make a temporary one; when all are read and two more are
-- written, it alone is free.
abbrev starving : FrameQueue
starving = written whole (
    written whole
      (was_read (was_read (was_read (written whole (written whole (written whole queue)))))))

starving_lists : (starving.free_list ≡ 2 ∷ []) × (starving.encoded_frame_queue ≡ 0 ∷ 1 ∷ [])
unfolding init destroy allocate delete_all empty_queue write_back dispatch write_new fill_buffer
    take_free read_front take_front
starving_lists = (refl, refl)

next_write_is_undefined : write_back whole starving ≡ none
unfolding init destroy allocate delete_all empty_queue write_back dispatch write_new fill_buffer
    take_free read_front take_front
next_write_is_undefined = refl

joined_frame :
    view (written key_part (written config_part queue))
    ≡ record { frames = (14, 1 ∷ 2 ∷ 3 ∷ []) ∷ []; partial = [] }
unfolding init destroy allocate delete_all empty_queue write_back dispatch write_new fill_buffer
    take_free write_pending
joined_frame = refl

queue-IsValid : IsValid queue
queue-IsValid = (init-IsValid 2 4 empty_queue).0

queue_fed : ¬ Starved whole queue
unfolding init destroy allocate delete_all empty_queue
queue_fed s = absurd (omega (arith, s.only_temporary))

init-IsValid_example :
    IsValid queue
    × (queue.capacity ≡ 2)
    × (queue.buffer_size ≡ 4)
    × (view queue ≡ record { frames = []; partial = [] })
init-IsValid_example = init-IsValid 2 4 empty_queue

read_front_lem_example :
    let (p, q') = read_front true (λ q. q) queue in
    IsValid q'
    × (◌≡◌ {A = Option Payload × Stream.Stream}
        (frame_at q' p, view q')
        (Stream.read (view (waited true (λ q. q) queue))))
read_front_lem_example = read_front_lem true (λ q. q) queue queue-IsValid queue-IsValid

queue_asserted : true ≡ true → (queue.inited ≡ true) × ¬ Fills whole queue
unfolding init destroy allocate delete_all empty_queue
queue_asserted e = (refl, λ f. absurd (omega (arith, f.exact)))

write_back_refines_example :
    (ok : Bool) × (q' : FrameQueue) × (write_back_in true whole queue ≡ some (ok, q'))
    × Writes queue (Stream.write queue.buffer_size whole (view queue)) ok q'
write_back_refines_example =
    write_back_refines true whole queue queue-IsValid queue_fed queue_asserted

-- A frame of four bytes, as long as a buffer.
abbrev full_frame : MmalBuffer
full_frame = record { flags = 6; data_bytes = 1 ∷ 2 ∷ 3 ∷ 4 ∷ [] }

full_frame_fails : write_back_in true full_frame queue ≡ none
unfolding init destroy allocate delete_all empty_queue write_back_in write_back_dcheck take_free
full_frame_fails = refl

queue_ready : queue.inited ≡ true
unfolding init destroy allocate delete_all empty_queue
queue_ready = refl

write_back_in-none_iff_example :
    (write_back_in true full_frame queue ≡ none) ↔ Starved full_frame queue ⊎ Fills full_frame queue
write_back_in-none_iff_example = write_back_in-none_iff full_frame queue queue-IsValid queue_ready

write_back-none_iff_example : (write_back whole queue ≡ none) ↔ Starved whole queue
write_back-none_iff_example = write_back-none_iff whole queue queue-IsValid
