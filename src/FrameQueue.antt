-- ===== src/FrameQueue.antt =====
-- frame_queue.cc and frame_queue.h: the queue between the MMAL callback, which writes frames, and
-- the drain threads, which read them. Frame buffers are objects on a heap, named by numbers, so
-- that the pointer which `ReadFront` hands out and the one on the free list are the same object.
-- A method that takes `mutex_` is one step. `none` is undefined behaviour: `front` or `pop_front`
-- of an empty deque, or an access to a deleted buffer.

-- What the program reads of an MMAL_BUFFER_HEADER_T; its length is that of the data.
pub mod Ownership
pub mod TakeFree
pub mod Owns
pub mod Stream
pub mod Filling
pub mod Joining
pub mod Dispatching
pub mod WriteBack
pub mod Assertions
pub mod Reading
pub mod Initial
mod Tests
use rpi_webrtc_streamer.Base.{
  ℕ, zero, suc, ◌+◌, ◌/◌, ◌%◌, ◌^◌, Bool, true, false, ◌&&◌, Option, none, some, List, [], ◌∷◌,
  ◌++◌, ltb, ◌==◌, if◌then◌else◌, length, update,
}

pub record MmalBuffer : Type 0 where
  pub flags : ℕ
  pub data_bytes : List ℕ

-- The bits of `flags_`, a bitset<8>.
abbrev pub flag_set : ℕ → ℕ → Bool
flag_set k flags = (flags / 2 ^ k) % 2 == 1

abbrev pub frame_flag_eos : ℕ
frame_flag_eos = 0

abbrev pub frame_flag_start : ℕ
frame_flag_start = 1

abbrev pub frame_flag_end : ℕ
frame_flag_end = 2

abbrev pub frame_flag_key_frame : ℕ
frame_flag_key_frame = 3

abbrev pub frame_flag_config : ℕ
frame_flag_config = 5

abbrev pub frame_flag_ide_info : ℕ
frame_flag_ide_info = 7

-- `content` is the first `length_` bytes of `data_`.
pub record FrameBuffer : Type 0 where
  pub temporary : Bool
  pub flags : ℕ
  pub content : List ℕ
  pub capacity : ℕ

abbrev pub is_key_frame : FrameBuffer → Bool
is_key_frame b = flag_set frame_flag_key_frame b.flags

abbrev pub is_frame : FrameBuffer → Bool
is_frame b = flag_set frame_flag_start b.flags && flag_set frame_flag_end b.flags

abbrev pub is_frame_end : FrameBuffer → Bool
is_frame_end b = flag_set frame_flag_end b.flags

abbrev pub is_motion_vector : FrameBuffer → Bool
is_motion_vector b = flag_set frame_flag_ide_info b.flags

abbrev pub is_config : FrameBuffer → Bool
is_config b = flag_set frame_flag_config b.flags

abbrev pub reset : FrameBuffer → FrameBuffer
reset b = record b { flags = 0; content = [] }

-- `flags_ = buffer->flags` keeps the low 8 bits.
abbrev pub copy : FrameBuffer → MmalBuffer → FrameBuffer
copy b m = record b { flags = m.flags % 256; content = m.data_bytes }

abbrev pub append : FrameBuffer → MmalBuffer → FrameBuffer
append b m = record b { flags = m.flags % 256; content = b.content ++ m.data_bytes }

pub record FrameQueue : Type 0 where
  pub heap : ℕ → Option FrameBuffer
  -- the next name that `new FrameBuffer` gives
  pub fresh : ℕ
  pub inited : Bool
  pub capacity : ℕ
  pub buffer_size : ℕ
  pub encoded_frame_queue : List ℕ
  pub free_list : List ℕ
  pub pending : List ℕ
  pub event : Bool

abbrev pub new_buffer : ℕ → Bool → FrameBuffer
new_buffer size temporary = record {
  temporary = temporary;
  flags = 0;
  content = [];
  capacity = size;
}

-- `new FrameBuffer(buffer_size_)` for `n` buffers, each pushed to the back of the free list.
pub allocate : ℕ → FrameQueue → FrameQueue
allocate zero q = q
allocate (suc n) q = allocate n (record q {
  heap = update q.heap q.fresh (some (new_buffer q.buffer_size false));
  fresh = q.fresh + 1;
  free_list = q.free_list ++ (q.fresh ∷ []);
})

pub delete_all : (ℕ → Option FrameBuffer) → List ℕ → ℕ → Option FrameBuffer
delete_all h [] = h
delete_all h (p ∷ ps) = delete_all (update h p none) ps

pub destroy : FrameQueue → FrameQueue
unfolding delete_all
destroy q = record q {
  heap = delete_all (delete_all (delete_all q.heap q.pending) q.free_list) q.encoded_frame_queue;
  encoded_frame_queue = [];
  free_list = [];
  pending = [];
}

-- `FrameQueue()`
pub empty_queue : FrameQueue
empty_queue = record {
  heap = λ _. none;
  fresh = 0;
  inited = false;
  capacity = 0;
  buffer_size = 0;
  encoded_frame_queue = [];
  free_list = [];
  pending = [];
  event = false;
}

pub init : ℕ → ℕ → FrameQueue → FrameQueue
unfolding allocate destroy
init capacity buffer_size q =
    allocate capacity
      (destroy (record q { inited = true; capacity = capacity; buffer_size = buffer_size }))

pub clear : FrameQueue → FrameQueue
clear q = record q { free_list = q.free_list ++ q.encoded_frame_queue; encoded_frame_queue = [] }

pub size : FrameQueue → ℕ
size q = length q.encoded_frame_queue

-- What `ReadFront` does once it has seen that the queue is not empty.
pub take_front : List ℕ → FrameQueue → Option ℕ × FrameQueue
take_front [] q = (none, q)
take_front (p ∷ ps) q =
    (some p, record q { encoded_frame_queue = ps; free_list = q.free_list ++ (p ∷ []) })

-- `arrived` is what the writer does to the queue while `Wait` blocks.
pub read_front : Bool → (FrameQueue → FrameQueue) → FrameQueue → Option ℕ × FrameQueue
read_front wait_until_timeout arrived q =
    let is_waiting = length q.encoded_frame_queue == 0 && wait_until_timeout in
    let q' = if is_waiting then record (arrived q) { event = false } else q in
    take_front q'.encoded_frame_queue q'

-- The loop that takes a buffer from a non-empty free list: temporary buffers at the front are
-- deleted; when none is left, `free_list_.pop_front()` has no element to remove.
pub take_free : (ℕ → Option FrameBuffer) → List ℕ → Option (ℕ × List ℕ × (ℕ → Option FrameBuffer))
take_free heap [] = none
take_free heap (p ∷ ps) =
    let rest = take_free (update heap p none) ps in
    elim (heap p) [ none ↦ none | some b ↦ if b.temporary then rest else some (p, ps, heap) ]

-- `buffer` is in use: `reset`, `copy`, and on to the pending or to the encoded frames.
pub fill_buffer : ℕ → MmalBuffer → FrameQueue → Option (Bool × FrameQueue)
fill_buffer p m q = elim (q.heap p) [
  | none ↦ none
  | some b ↦
      let b' = copy (reset b) m in
      let q' = record q { heap = update q.heap p (some b') } in
      if is_config b'
      then some (true, record q' { pending = q'.pending ++ (p ∷ []) })
      else some (
        true,
        record q' { encoded_frame_queue = q'.encoded_frame_queue ++ (p ∷ []); event = true },
      )
]

-- `WriteBack` with no pending frame.
pub write_new : MmalBuffer → FrameQueue → List ℕ → Option (Bool × FrameQueue)
write_new m q [] = fill_buffer q.fresh m (record q {
  heap = update q.heap q.fresh (some (new_buffer q.buffer_size true));
  fresh = q.fresh + 1;
})
write_new m q (p ∷ ps) = elim (take_free q.heap (p ∷ ps)) [
  | none ↦ none
  | some (x, rest, heap) ↦ fill_buffer x m (record q { heap = heap; free_list = rest })
]

-- `WriteBack` with the pending buffer `p`, the last of `pending_`; `first` is its first.
pub write_pending : MmalBuffer → FrameQueue → ℕ → ℕ → List ℕ → Option (Bool × FrameQueue)
write_pending m q first p others = elim (q.heap p) [
  | none ↦ none
  | some b ↦
      let b' = append b m in
      let q' = record q { heap = update q.heap p (some b') } in
      if ltb q.buffer_size (length b.content + length m.data_bytes)
      then some (false, record q { free_list = q.free_list ++ (first ∷ []); pending = [] })
      else (if is_frame_end b'
          then some (
            true,
            record q' {
              pending = others;
              encoded_frame_queue = q'.encoded_frame_queue ++ (p ∷ []);
              event = true;
            },
          )
          else some (true, q'))
]

-- The last element and what stands before it.
abbrev pub split_last : ℕ → List ℕ → ℕ × List ℕ
split_last x [] = (x, [])
split_last x (y ∷ ys) = let (z, zs) = split_last y ys in (z, x ∷ zs)

pub dispatch : MmalBuffer → FrameQueue → List ℕ → Option (Bool × FrameQueue)
dispatch m q [] = write_new m q q.free_list
dispatch m q (p ∷ ps) = let (last, others) = split_last p ps in write_pending m q p last others

pub write_back : MmalBuffer → FrameQueue → Option (Bool × FrameQueue)
write_back m q =
    if length m.data_bytes == 0 && m.flags == 0
    then some (true, q)
    else (if ltb q.buffer_size (length m.data_bytes)
        then some (false, q)
        else dispatch m q q.pending)
