-- ===== src/FileWriter/Buffer/Fifo.antt =====
-- The buffer as a first-in first-out sequence of bytes.
use rpi_webrtc_streamer.Base.{
  ℕ, zero, suc, ◌+◌, ◌-◌, ◌^◌, ◌≤◌, ◌<◌, ◌≡◌, refl, ap, ap₂, ◌∙◌, ◌↔◌, inl, inr, none, some, List,
  ◌∷◌, ◌++◌, arith, le_or_lt, length, take, drop, take_all, drop_all, slice, copy_in, length-slice,
  slice-copy_in_below, slice-copy_in, slice-append, add_size,
}
use rpi_webrtc_streamer.FileWriter.Buffer.{
  FileWriterBuffer, quarter, size, read_front, resize, append_bytes, write_back,
}

-- The bytes that are written and not yet read, oldest first.
abbrev pub contents : FileWriterBuffer → List ℕ
contents b = slice b.buffer b.offset_start (b.offset_end - b.offset_start)

pub record IsValid (b : FileWriterBuffer) : Type 0 where
  pub ordered : b.offset_start ≤ b.offset_end
  pub inside : b.offset_end ≤ b.buffer_size
  pub small : b.buffer_size < 2 ^ 53

-- `take` and `drop` of a slice.
take-slice : (m : ℕ → ℕ) (s n k : ℕ) → n ≤ k → take n (slice m s k) ≡ slice m s n
take-slice m s zero k h = refl
take-slice m s (suc n) zero h = absurd (omega arith)
take-slice m s (suc n) (suc k) h = ap (◌∷◌ (m s)) (take-slice m (suc s) n k (omega arith))

drop-slice : (m : ℕ → ℕ) (s n k : ℕ) → n ≤ k → drop n (slice m s k) ≡ slice m (s + n) (k - n)
drop-slice m s zero k h = grind arith
drop-slice m s (suc n) zero h = absurd (omega arith)
drop-slice m s (suc n) (suc k) h =
    let place : suc s + n ≡ s + suc n = omega arith in
    drop-slice m (suc s) n k (omega arith) ∙ ap₂ (slice m) place (omega arith)

pub size-sub : (b : FileWriterBuffer) → IsValid b → size b ≡ b.offset_end - b.offset_start
unfolding size
size-sub b v = omega arith

pub read_front_takes :
    (b : FileWriterBuffer) (n : ℕ)
    → IsValid b
    → ((read_front b n).0 ≡ take n (contents b))
      × (contents (read_front b n).1 ≡ drop n (contents b))
      × IsValid (read_front b n).1
unfolding read_front
read_front_takes b n v = ground (
  arith,
  size-sub b v,
  take-slice b.buffer b.offset_start n (b.offset_end - b.offset_start),
  drop-slice b.buffer b.offset_start n (b.offset_end - b.offset_start),
  take_all n (contents b),
  drop_all n (contents b),
  length-slice b.buffer b.offset_start (b.offset_end - b.offset_start),
)

append_bytes_lem :
    (b : FileWriterBuffer) (bytes : List ℕ)
    → IsValid b
    → b.offset_end + length bytes ≤ b.buffer_size
    → (b' : FileWriterBuffer) × (append_bytes b bytes ≡ some (length bytes, b'))
      × (contents b' ≡ contents b ++ bytes)
      × IsValid b'
unfolding append_bytes
append_bytes_lem b bytes v h = (
  record b {
    buffer = copy_in b.buffer b.offset_end bytes;
    offset_end = add_size b.offset_end (length bytes);
  },
  ground arith,
  ap (slice (copy_in b.buffer b.offset_end bytes) b.offset_start) len
      ∙ slice-append (copy_in b.buffer b.offset_end bytes) b.offset_start k (length bytes)
      ∙ ap₂ ◌++◌ (slice-copy_in_below b.buffer b.offset_end bytes b.offset_start k (omega arith)) (
          ap (λ t. slice (copy_in b.buffer b.offset_end bytes) t (length bytes)) place
          ∙ slice-copy_in b.buffer b.offset_end bytes),
  omega arith,
)
  where
    k : ℕ
    k = b.offset_end - b.offset_start

    len : add_size b.offset_end (length bytes) - b.offset_start ≡ k + length bytes
    len = omega (arith, v)

    place : b.offset_start + k ≡ b.offset_end
    place = omega (arith, v)

module _ (uninit : ℕ → ℕ) where
  resize_lem :
      (b : FileWriterBuffer)
      → IsValid b
      → b.buffer_size + quarter b.buffer_size < 2 ^ 53
      → (contents (resize uninit b) ≡ contents b) × IsValid (resize uninit b)
  unfolding resize
  resize_lem b v h =
      let bytes : List ℕ = contents b in
      let copied : slice (copy_in uninit b.offset_start bytes) b.offset_start (length bytes)
          ≡ bytes =
        slice-copy_in uninit b.offset_start bytes in
      ground (
        arith,
        size-sub b v,
        copied,
        length-slice b.buffer b.offset_start (b.offset_end - b.offset_start),
      )

  write_back_fits :
      (b : FileWriterBuffer) (bytes : List ℕ)
      → IsValid b
      → b.offset_end + length bytes ≤ b.buffer_size
      → write_back uninit b bytes ≡ append_bytes b bytes
  unfolding write_back
  write_back_fits b bytes v h = ground arith

  write_back_grows :
      (b : FileWriterBuffer) (bytes : List ℕ)
      → IsValid b
      → length bytes < 2 ^ 63
      → b.buffer_size < b.offset_end + length bytes
      → write_back uninit b bytes ≡ append_bytes (resize uninit b) bytes
  unfolding write_back
  write_back_grows b bytes v k h = ground arith

  offset_end-resize :
      (b : FileWriterBuffer)
      → b.buffer_size < 2 ^ 53
      → ((resize uninit b).offset_end ≡ b.offset_end)
        × ((resize uninit b).buffer_size ≡ b.buffer_size + quarter b.buffer_size)
  unfolding resize
  offset_end-resize b h = omega arith

  -- A write that ends within a quarter above the allocation appends its bytes to the contents,
  -- reports their number and keeps the buffer valid.
  pub write_back_appends :
      (b : FileWriterBuffer) (bytes : List ℕ)
      → IsValid b
      → b.buffer_size + quarter b.buffer_size < 2 ^ 53
      → b.offset_end + length bytes ≤ b.buffer_size + quarter b.buffer_size
      → (b' : FileWriterBuffer) × (write_back uninit b bytes ≡ some (length bytes, b'))
        × (contents b' ≡ contents b ++ bytes)
        × IsValid b'
  write_back_appends b bytes v room h =
      elim (le_or_lt (b.offset_end + length bytes) b.buffer_size) [
        | inl fits ↦ rw (write_back_fits b bytes v fits) (append_bytes_lem b bytes v fits)
        | inr more ↦
            rw (write_back_grows b bytes v (omega arith) more, ← (resize_lem b v room).0)
              (append_bytes_lem (resize uninit b) bytes (resize_lem b v room).1
                (omega (arith, offset_end-resize b v.small)))
      ]

  -- A write that ends later than that leaves the allocation, and only such a write does.
  pub write_back_overflows :
      (b : FileWriterBuffer) (bytes : List ℕ)
      → IsValid b
      → length bytes < 2 ^ 63
      → (write_back uninit b bytes ≡ none)
        ↔ (b.buffer_size + quarter b.buffer_size < b.offset_end + length bytes)
  unfolding append_bytes
  write_back_overflows b bytes v k = elim (le_or_lt (b.offset_end + length bytes) b.buffer_size) [
    | inl fits ↦ ground (arith, write_back_fits b bytes v fits)
    | inr more ↦ ground (arith, write_back_grows b bytes v k more, offset_end-resize b v.small)
  ]
