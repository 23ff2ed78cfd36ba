-- ===== src/FrameQueue/Assertions.antt =====
-- The RTC_DCHECK lines that WriteBack of frame_queue.cc comes to, which a debug build ends the
-- process at, and WriteBack with and without them.
use rpi_webrtc_streamer.Base.{
  ℕ, ◌+◌, ◌≤◌, ◌<◌, ◌≡◌, refl, sym, ap, subst, ◌⊎◌, inl, inr, Bool, true, false, not, ==_iff, ◌&&◌,
  ◌||◌, Option, none, some, List, [], ◌∷◌, ◌++◌, arith, ◌==◌, ltb, if◌then◌else◌, Bool-cases,
  le_or_lt, length, occ, occ-append, occ_head,
}
use rpi_webrtc_streamer.FrameQueue.{
  MmalBuffer, FrameBuffer, FrameQueue, new_buffer, reset, take_free, write_new, split_last,
  dispatch, write_back,
}
use rpi_webrtc_streamer.FrameQueue.Ownership.{Heap}
use rpi_webrtc_streamer.FrameQueue.TakeFree.{take_free-Outcome}
use rpi_webrtc_streamer.FrameQueue.TakeFree
use rpi_webrtc_streamer.FrameQueue.Owns.{Owns, IsAlive, Owns-take}
use rpi_webrtc_streamer.FrameQueue.Stream.{Payload, payloads}
use rpi_webrtc_streamer.FrameQueue.Filling.{IsValid}

-- `RTC_DCHECK(buffer->length < capacity_)` of FrameBuffer::copy
abbrev pub copy_dcheck : FrameBuffer → MmalBuffer → Bool
copy_dcheck b m = ltb (length m.data_bytes) b.capacity

-- `RTC_DCHECK(buffer->length + length_ < capacity_)` of FrameBuffer::append
abbrev pub append_dcheck : FrameBuffer → MmalBuffer → Bool
append_dcheck b m = ltb (length m.data_bytes + length b.content) b.capacity

abbrev pub write_new_dcheck : MmalBuffer → FrameQueue → List ℕ → Bool
write_new_dcheck m q [] = copy_dcheck (reset (new_buffer q.buffer_size true)) m
write_new_dcheck m q (p ∷ ps) = elim (take_free q.heap (p ∷ ps)) [
  | none ↦ true
  | some (x, rest, heap) ↦ elim (heap x) [ none ↦ true | some b ↦ copy_dcheck (reset b) m ]
]

-- A frame that grows too large is dropped before `append`.
abbrev pub write_pending_dcheck : MmalBuffer → FrameQueue → ℕ → Bool
write_pending_dcheck m q p = elim (q.heap p) [
  | none ↦ true
  | some b ↦ ltb q.buffer_size (length b.content + length m.data_bytes) || append_dcheck b m
]

abbrev pub dispatch_dcheck : MmalBuffer → FrameQueue → List ℕ → Bool
dispatch_dcheck m q [] = write_new_dcheck m q q.free_list
dispatch_dcheck m q (p ∷ ps) = write_pending_dcheck m q (split_last p ps).0

-- Whether all the assertions that WriteBack comes to hold.
unfoldable pub write_back_dcheck : MmalBuffer → FrameQueue → Bool
unfolding take_free
write_back_dcheck m q =
    q.inited
    && (length m.data_bytes == 0 && m.flags == 0
        || (ltb q.buffer_size (length m.data_bytes) || dispatch_dcheck m q q.pending))

-- `WriteBack` in a build with or without RTC_DCHECK; `none` is also the end of the process.
unfoldable pub write_back_in : Bool → MmalBuffer → FrameQueue → Option (Bool × FrameQueue)
unfolding write_back_dcheck write_back
write_back_in dchecks m q = if dchecks && not (write_back_dcheck m q) then none else write_back m q

-- The bytes of the frame that waits for its second part.
abbrev pub pending_bytes : List Payload → ℕ
pending_bytes [] = 0
pending_bytes (f ∷ _) = length f.1

-- A frame with content that fills a buffer to its last byte, with what waits for it.
pub record Fills (m : MmalBuffer) (q : FrameQueue) : Type 0 where
  pub has_content : (length m.data_bytes == 0 && m.flags == 0) ≡ false
  pub exact : pending_bytes (payloads q.heap q.pending) + length m.data_bytes ≡ q.buffer_size

-- Either the code is undefined, or the assertion fails just when `n` bytes fill a buffer.
abbrev Checks : {A : Type 0} → Option A → Bool → ℕ → ℕ → Type 0
Checks r ok n size = (r ≡ none) ⊎ (ok ≡ not (n == size))

module _ (m : MmalBuffer) (q : FrameQueue) (fits : length m.data_bytes ≤ q.buffer_size)
    (o : Owns q.heap q.buffer_size q.fresh q.capacity (q.encoded_frame_queue ++ q.free_list)) where
  alive_dcheck :
      (heap : Heap) (x : ℕ)
      → IsAlive heap q.buffer_size q.fresh x
      → (elim (heap x) [ none ↦ true | some b ↦ copy_dcheck (reset b) m ])
        ≡ not (length m.data_bytes == q.buffer_size)
  alive_dcheck heap x (b, e, (len, room), lt) = ground (arith, e, room, fits)

  write_new-Checks :
      (fs : List ℕ)
      → q.free_list ≡ fs
      → Checks (write_new m q fs) (write_new_dcheck m q fs) (length m.data_bytes) q.buffer_size
  unfolding write_new
  write_new-Checks [] free = inr (ground (arith, fits))
  write_new-Checks (p ∷ ps) free = go (take_free q.heap (p ∷ ps)) refl (
      take_free-Outcome q.heap (p ∷ ps) (λ r i. let (b, e, _, _) = alive r i in (b, e))
        (λ r. omega (arith, owns_free.once r, occ-append r q.encoded_frame_queue (p ∷ ps))))
    where
      owns_free : Owns q.heap q.buffer_size q.fresh q.capacity (q.encoded_frame_queue ++ (p ∷ ps))
      owns_free =
          subst (λ fs. Owns q.heap q.buffer_size q.fresh q.capacity (q.encoded_frame_queue ++ fs))
            free o

      alive : (r : ℕ) → 0 < occ r (p ∷ ps) → IsAlive q.heap q.buffer_size q.fresh r
      alive r i = owns_free.alive r (omega (arith, i, occ-append r q.encoded_frame_queue (p ∷ ps)))

      go :
          (r : Option (ℕ × List ℕ × Heap))
          → take_free q.heap (p ∷ ps) ≡ r
          → TakeFree.Outcome q.heap (p ∷ ps) r
          → Checks
              (write_new m q (p ∷ ps))
              (write_new_dcheck m q (p ∷ ps))
              (length m.data_bytes)
              q.buffer_size
      go none e z = inl (rw (e, write_new))
      go (some (x, rest, heap')) e t =
          let taken = Owns-take q.encoded_frame_queue (p ∷ ps) t owns_free in
          inr (
            rw (e, write_new_dcheck)
              (alive_dcheck heap' x (taken.alive x (occ_head x (q.encoded_frame_queue ++ rest)))))

dispatch-Checks :
    (m : MmalBuffer) (q : FrameQueue) (ps : List ℕ)
    → IsValid q
    → length m.data_bytes ≤ q.buffer_size
    → q.pending ≡ ps
    → Checks
        (dispatch m q ps)
        (dispatch_dcheck m q ps)
        (pending_bytes (payloads q.heap ps) + length m.data_bytes)
        q.buffer_size
unfolding dispatch
dispatch-Checks m q [] v fits e =
    let nothing_waits : length m.data_bytes ≡ 0 + length m.data_bytes = omega arith in
    subst
      (λ n. Checks (write_new m q q.free_list) (write_new_dcheck m q q.free_list) n q.buffer_size)
      nothing_waits
      (write_new-Checks m q fits
        (subst
          (λ ps.
            Owns q.heap q.buffer_size q.fresh q.capacity
              (ps ++ (q.encoded_frame_queue ++ q.free_list)))
          e v.owns)
        q.free_list refl)
dispatch-Checks m q (p ∷ []) v fits e =
    let (b, here, (len, room), lt) = v.owns.alive p (
      subst (λ ps. 0 < occ p (ps ++ (q.encoded_frame_queue ++ q.free_list))) (sym e)
        (occ_head p (q.encoded_frame_queue ++ q.free_list))) in
    inr (ground (arith, here, room))
dispatch-Checks m q (p ∷ r ∷ ps) v fits e = absurd (omega (arith, v.single, ap length e))

-- The ways in which a call of `WriteBack` meets its assertions.
abbrev pub Meets : MmalBuffer → FrameQueue → Type 0
Meets m q =
    (write_back m q ≡ none)
    ⊎ ((write_back_dcheck m q ≡ true) × ¬ Fills m q)
    ⊎ ((write_back_dcheck m q ≡ false) × Fills m q)

dispatched-Meets :
    (m : MmalBuffer) (q : FrameQueue)
    → q.inited ≡ true
    → (length m.data_bytes == 0 && m.flags == 0) ≡ false
    → length m.data_bytes ≤ q.buffer_size
    → Checks
        (dispatch m q q.pending)
        (dispatch_dcheck m q q.pending)
        (pending_bytes (payloads q.heap q.pending) + length m.data_bytes)
        q.buffer_size
    → Meets m q
unfolding write_back write_back_dcheck
dispatched-Meets m q ready content fits (inl undefined_) = inl (ground arith)
dispatched-Meets m q ready content fits (inr checked) =
    let n = pending_bytes (payloads q.heap q.pending) + length m.data_bytes in
    elim (Bool-cases (n == q.buffer_size)) [
      | inl full ↦ inr (
          inr (
            ground (arith, ready, content, fits, checked, full),
            record { has_content = content; exact = (==_iff n q.buffer_size).0 full },
          ))
      | inr room ↦ inr (
          inl (
            ground (arith, ready, content, fits, checked, room),
            λ f. ground (arith, room, f.exact),
          ))
    ]

pub write_back-Meets : (m : MmalBuffer) (q : FrameQueue) → IsValid q → q.inited ≡ true → Meets m q
unfolding write_back_dcheck
write_back-Meets m q v ready = elim (Bool-cases (length m.data_bytes == 0 && m.flags == 0)) [
  | inl nothing ↦
      inr (inl (ground (arith, ready, nothing), λ f. ground (arith, nothing, f.has_content)))
  | inr content ↦ elim (le_or_lt (length m.data_bytes) q.buffer_size) [
    | inl fits ↦ dispatched-Meets m q ready content fits (dispatch-Checks m q q.pending v fits refl)
    | inr large ↦
        inr (inl (ground (arith, ready, content, large), λ f. omega (arith, large, f.exact)))
  ]
]
