-- ===== src/FileWriter/Buffer.antt =====
-- class FileWriterBuffer of src/file_writer_handle.cc: one growing allocation with a read and a
-- write offset. Each method runs under the object's mutex, so it is one step. Memory is a function
-- from addresses to bytes; `uninit` is what `new uint8_t[n]` returns before it is written.
-- `none` is a `memcpy` that leaves the allocation, which is undefined behaviour.
pub mod Fifo
use rpi_webrtc_streamer.Base.{
  ℕ, ◌+◌, ◌/◌, Option, none, some, List, [], ltb, if◌then◌else◌, length, slice, copy_in, add_size,
  sub_size,
}

pub record FileWriterBuffer : Type 0 where
  pub buffer_size : ℕ
  pub offset_start : ℕ
  pub offset_end : ℕ
  pub buffer : ℕ → ℕ

-- static_cast<size_t>(n * 0.25), exact for the sizes that a double represents (below 2 ^ 53)
abbrev pub quarter : ℕ → ℕ
quarter n = n / 4

unfoldable pub size : FileWriterBuffer → ℕ
size b = sub_size b.offset_end b.offset_start

pub clear : FileWriterBuffer → FileWriterBuffer
clear b = record b { offset_start = 0; offset_end = 0 }

unfoldable pub read_front : FileWriterBuffer → ℕ → List ℕ × FileWriterBuffer
read_front b n =
    let remaining = size b in
    if ltb 0 remaining
    then (if ltb n remaining
        then (
          slice b.buffer b.offset_start n,
          record b { offset_start = add_size b.offset_start n },
        )
        else (
          slice b.buffer b.offset_start remaining,
          record b { offset_start = 0; offset_end = 0 },
        ))
    else ([], b)

-- The `memcpy` at the write offset.
unfoldable pub append_bytes : FileWriterBuffer → List ℕ → Option (ℕ × FileWriterBuffer)
append_bytes b bytes =
    if ltb b.buffer_size (b.offset_end + length bytes)
    then none
    else some (
      length bytes,
      record b {
        buffer = copy_in b.buffer b.offset_end bytes;
        offset_end = add_size b.offset_end (length bytes);
      },
    )

module _ (uninit : ℕ → ℕ) where
  pub init : ℕ → FileWriterBuffer
  init n = record { buffer_size = n; offset_start = 0; offset_end = 0; buffer = uninit }

  unfoldable pub resize : FileWriterBuffer → FileWriterBuffer
  resize b = record b {
    buffer_size = add_size b.buffer_size (quarter b.buffer_size);
    buffer =
        if ltb 0 (size b)
        then copy_in uninit b.offset_start (slice b.buffer b.offset_start (size b))
        else uninit;
  }

  unfoldable pub write_back : FileWriterBuffer → List ℕ → Option (ℕ × FileWriterBuffer)
  write_back b bytes =
      append_bytes
        (if ltb b.buffer_size (add_size b.offset_end (length bytes)) then resize b else b) bytes
