-- ===== src/FileWriter/Handle/Drain.antt =====
-- `FileWriterHandle::Write`: what reaches the file.
use rpi_webrtc_streamer.Base.{
  ℕ, zero, suc, ◌<◌, ◌≡◌, refl, sym, ap, subst, ◌∙◌, inl, inr, Bool, true, false, Option, some, [],
  ◌∷◌, ◌++◌, arith, Bool-cases, length, take, drop, length-append, length-take, ◌≤◌, ◌≢◌,
  take-append-drop, Text,
}
use mathlib.Core.List.{append_assoc, append-nil}
use rpi_webrtc_streamer.FileWriter.Buffer.{FileWriterBuffer, read_front}
use rpi_webrtc_streamer.FileWriter.Buffer.Fifo.{contents, IsValid, read_front_takes}
use rpi_webrtc_streamer.FileWriter.Handle.{
  FileWriterHandle, file_writer_buffer_size, discard_round, discard, is_over_limit, write_chunk,
  write_round, write_loop, write,
}

-- What one run of the writing loop may leave: the file is extended by `written`, the front of the
-- contents; only if the run fails, the next bytes are lost, one chunk that the disk refused at that
-- end of the file; the rest stays.
pub record Drained (disk : Text → Text → Bool) (h : FileWriterHandle) (ok : Bool)
    (h' : FileWriterHandle) : Type 0 where
  pub written : Text
  pub lost : Text
  pub extended : h'.file ≡ h.file ++ written
  pub split : contents h.buffer ≡ written ++ (lost ++ contents h'.buffer)
  pub complete : ok ≡ true → (lost ≡ []) × (contents h'.buffer ≡ [])
  pub refused :
      ok ≡ false
      → (lost ≢ []) × (length lost ≤ file_writer_buffer_size) × (disk h'.file lost ≡ false)
  pub valid : IsValid h'.buffer

-- A non-empty contents gives a non-empty chunk.
take-nil_contents : (n : ℕ) (xs : Text) → 0 < n → take n xs ≡ [] → xs ≡ []
take-nil_contents zero xs h e = absurd (omega arith)
take-nil_contents (suc n) [] h e = refl
take-nil_contents (suc n) (x ∷ xs) h e = cc

-- One chunk is read: the contents are that chunk and what stays.
record Reads (b : FileWriterBuffer) (bytes : Text) (b' : FileWriterBuffer) : Type 0 where
  split : contents b ≡ bytes ++ contents b'
  short : length bytes ≤ file_writer_buffer_size
  valid : IsValid b'
  last : bytes ≡ [] → contents b ≡ []

read_front-Reads :
    (b : FileWriterBuffer) (bytes : Text) (b' : FileWriterBuffer)
    → IsValid b
    → read_front b file_writer_buffer_size ≡ (bytes, b')
    → Reads b bytes b'
read_front-Reads b bytes b' v e =
    let law = read_front_takes b file_writer_buffer_size v in
    let chunk : bytes ≡ take file_writer_buffer_size (contents b) = ap (λ r. r.0) (sym e) ∙ law.0 in
    let rest : contents b' ≡ drop file_writer_buffer_size (contents b) =
      ap (λ r. contents r.1) (sym e) ∙ law.1 in
    record {
      split = rw (chunk, rest) (sym (take-append-drop file_writer_buffer_size (contents b)));
      short = omega (arith, ap length chunk, length-take file_writer_buffer_size (contents b));
      valid = subst (λ r. IsValid r.1) e law.2;
      last = λ empty.
          take-nil_contents file_writer_buffer_size (contents b) (omega arith) (sym chunk ∙ empty);
    }

-- What the discarding loop leaves.
abbrev Emptied : Option FileWriterBuffer → Type 0
Emptied r = (b' : FileWriterBuffer) × (r ≡ some b') × (contents b' ≡ []) × IsValid b'

discard_round-Emptied :
    (fuel : ℕ) (b : FileWriterBuffer) (bytes : Text) (b' : FileWriterBuffer)
    → ((b₁ : FileWriterBuffer)
        → IsValid b₁
        → length (contents b₁) < fuel
        → Emptied (discard fuel b₁))
    → Reads b bytes b'
    → length (contents b) < suc fuel
    → Emptied (discard_round (discard fuel) (bytes, b'))
unfolding discard_round
discard_round-Emptied fuel b [] b' ih r enough = (b', refl, sym r.split ∙ r.last refl, r.valid)
discard_round-Emptied fuel b (x ∷ xs) b' ih r enough =
    ih b' r.valid (omega (arith, ap length r.split, length-append (x ∷ xs) (contents b')))

discard-Emptied :
    (fuel : ℕ) (b : FileWriterBuffer)
    → IsValid b
    → length (contents b) < fuel
    → Emptied (discard fuel b)
unfolding discard
discard-Emptied zero b v enough = absurd (omega arith)
discard-Emptied (suc fuel) b v enough =
    discard_round-Emptied fuel b (read_front b file_writer_buffer_size).0
      (read_front b file_writer_buffer_size).1 (discard-Emptied fuel)
      (read_front-Reads b _ _ v refl) enough

abbrev Outcome : (Text → Text → Bool) → FileWriterHandle → Option (Bool × FileWriterHandle) → Type 0
Outcome disk h r =
    (ok : Bool) × (h' : FileWriterHandle) × (r ≡ some (ok, h')) × Drained disk h ok h'

module _ (disk : Text → Text → Bool) where
  -- The last round, which reads nothing.
  loop_ends :
      (h : FileWriterHandle) (b' : FileWriterBuffer)
      → Reads h.buffer [] b'
      → Drained disk h true (record h { buffer = b' })
  loop_ends h b' r = record {
    written = [];
    lost = [];
    extended = sym (append-nil h.file);
    split = r.split;
    complete = λ _. (refl, sym r.split ∙ r.last refl);
    refused = λ e. cc;
    valid = r.valid;
  }

  -- A round whose chunk the disk refuses.
  loop_fails :
      (h : FileWriterHandle) (x : ℕ) (xs : Text) (b' : FileWriterBuffer)
      → Reads h.buffer (x ∷ xs) b'
      → disk h.file (x ∷ xs) ≡ false
      → Drained disk h false (record h { buffer = b' })
  loop_fails h x xs b' r off = record {
    written = [];
    lost = x ∷ xs;
    extended = sym (append-nil h.file);
    split = r.split;
    complete = λ e. cc;
    refused = λ e. ((λ k. cc), r.short, off);
    valid = r.valid;
  }

  -- A round that writes its chunk, before the rest of the loop.
  loop_goes_on :
      (h : FileWriterHandle) (bytes : Text) (b' : FileWriterBuffer)
      → Reads h.buffer bytes b'
      → (r : Option (Bool × FileWriterHandle))
      → Outcome disk (write_chunk (record h { buffer = b' }) bytes) r
      → Outcome disk h r
  unfolding write_chunk
  loop_goes_on h bytes b' reads r (ok, h', e, d) = (
    ok,
    h',
    e,
    record {
      written = bytes ++ d.written;
      lost = d.lost;
      extended = d.extended ∙ append_assoc h.file bytes d.written;
      split =
          reads.split
          ∙ ap (◌++◌ bytes) d.split
          ∙ sym (append_assoc bytes d.written (d.lost ++ contents h'.buffer));
      complete = d.complete;
      refused = d.refused;
      valid = d.valid;
    },
  )

  loop_round :
      (fuel : ℕ) (h : FileWriterHandle) (bytes : Text) (b' : FileWriterBuffer)
      → ((h₁ : FileWriterHandle)
          → IsValid h₁.buffer
          → length (contents h₁.buffer) < fuel
          → Outcome disk h₁ (write_loop disk fuel h₁))
      → Reads h.buffer bytes b'
      → length (contents h.buffer) < suc fuel
      → Outcome disk h (write_round disk (write_loop disk fuel) h (bytes, b'))
  unfolding write_round
  loop_round fuel h [] b' ih r enough = (true, record h { buffer = b' }, refl, loop_ends h b' r)
  loop_round fuel h (x ∷ xs) b' ih r enough = elim (Bool-cases (disk h.file (x ∷ xs))) [
    | inl written ↦ rw written (
        loop_goes_on h (x ∷ xs) b' r _
          (ih _ r.valid (omega (arith, ap length r.split, length-append (x ∷ xs) (contents b')))))
    | inr refused ↦
        rw refused (false, record h { buffer = b' }, refl, loop_fails h x xs b' r refused)
  ]

  write_loop-Drained :
      (fuel : ℕ) (h : FileWriterHandle)
      → IsValid h.buffer
      → length (contents h.buffer) < fuel
      → Outcome disk h (write_loop disk fuel h)
  unfolding write_loop
  write_loop-Drained zero h v enough = absurd (omega arith)
  write_loop-Drained (suc fuel) h v enough =
      loop_round fuel h (read_front h.buffer file_writer_buffer_size).0
        (read_front h.buffer file_writer_buffer_size).1 (write_loop-Drained fuel)
        (read_front-Reads h.buffer _ _ v refl) enough

  write_within :
      (fuel : ℕ) (h : FileWriterHandle)
      → h.is_open ≡ true
      → is_over_limit h ≡ false
      → write disk fuel h ≡ write_loop disk fuel h
  unfolding write
  write_within fuel h opened within = ground arith

  -- `Write` on an open file within its limit ends, with fuel above the size of the valid buffer. It
  -- extends the file by the front of the contents, in order, and leaves a valid buffer. If it reports
  -- success that is the whole contents and the buffer is empty; if not, the next bytes, one chunk
  -- that is not empty, of at most 8192 bytes, which the disk refused at that end of the file, are
  -- lost, and the buffer keeps all that follows.
  pub write-Drained :
      (fuel : ℕ) (h : FileWriterHandle)
      → IsValid h.buffer
      → length (contents h.buffer) < fuel
      → h.is_open ≡ true
      → is_over_limit h ≡ false
      → (ok : Bool) × (h' : FileWriterHandle) × (write disk fuel h ≡ some (ok, h'))
        × Drained disk h ok h'
  write-Drained fuel h v enough opened within =
      rw (write_within fuel h opened within) (write_loop-Drained fuel h v enough)

  -- `Write` on an open file above its limit ends with success, empties the buffer and leaves the
  -- rest of the handle, the file included, as it was.
  pub write_over_limit :
      (fuel : ℕ) (h : FileWriterHandle)
      → IsValid h.buffer
      → length (contents h.buffer) < fuel
      → h.is_open ≡ true
      → is_over_limit h ≡ true
      → (b' : FileWriterBuffer) × (write disk fuel h ≡ some (true, record h { buffer = b' }))
        × (contents b' ≡ [])
        × IsValid b'
  unfolding write
  write_over_limit fuel h v enough opened over =
      let (b', e, empty, valid) = discard-Emptied fuel h.buffer v enough in
      (b', ground (arith, e), empty, valid)
