-- ===== src/FileWriter/Handle/Names.antt =====
-- Under which names a file is written and left: the rounds of the writer thread between `Open` and
-- `Close` keep the names.
use rpi_webrtc_streamer.Base.{
  ℕ, zero, suc, ◌≡◌, refl, ◌∙◌, inl, inr, Bool, true, false, not, ◌&&◌, ◌||◌, Option, none, some,
  List, [], ◌∷◌, ◌++◌, arith, ◌==◌, if◌then◌else◌, Bool-cases, if_cases, Text,
}
use mathlib.Core.Option
use rpi_webrtc_streamer.FileWriter.Buffer.{FileWriterBuffer, size}
use rpi_webrtc_streamer.FileWriter.Handle.{
  FileWriterHandle, temporary_file_name_extension, discard, is_over_limit, write_chunk, write_round,
  write_loop, write, writer_process, open_filename, open_and_spawn, finish_open, open_file, close,
}

-- The fields that only `Open` and `Close` change.
pub record Names : Type 0 where
  pub is_open : Bool
  pub filename : Text
  pub use_temporary_filename : Bool
  pub writer_quit : Bool
  pub moves : List (Text × Text)

abbrev pub names : FileWriterHandle → Names
names h = record {
  is_open = h.is_open;
  filename = h.filename;
  use_temporary_filename = h.use_temporary_filename;
  writer_quit = h.writer_quit;
  moves = h.moves;
}

-- A call that returns keeps the names.
abbrev Keeps : Names → Option (Bool × FileWriterHandle) → Type 0
Keeps n none = Unit
Keeps n (some (ok, h)) = names h ≡ n

module _ (disk : Text → Text → Bool) where
  write_round-Keeps :
      (n : Names) (next : FileWriterHandle → Option (Bool × FileWriterHandle))
      (h : FileWriterHandle) (bytes : Text) (b' : FileWriterBuffer)
      → ((h₁ : FileWriterHandle) → names h₁ ≡ n → Keeps n (next h₁))
      → names h ≡ n
      → Keeps n (write_round disk next h (bytes, b'))
  unfolding write_round write_chunk
  write_round-Keeps n next h [] b' ih e = e
  write_round-Keeps n next h (x ∷ xs) b' ih e = elim (Bool-cases (disk h.file (x ∷ xs))) [
    | inl written ↦ rw written (ih _ e)
    | inr refused ↦ rw refused e
  ]

  write_loop-Keeps :
      (n : Names) (fuel : ℕ) (h : FileWriterHandle) → names h ≡ n → Keeps n (write_loop disk fuel h)
  unfolding write_loop
  write_loop-Keeps n zero h e = tt
  write_loop-Keeps n (suc fuel) h e =
      write_round-Keeps n (write_loop disk fuel) h _ _ (write_loop-Keeps n fuel) e

  map-Keeps :
      (n : Names) (h : FileWriterHandle) (o : Option FileWriterBuffer)
      → names h ≡ n
      → Keeps n (Option.map (λ b'. (true, record h { buffer = b' })) o)
  map-Keeps n h none e = tt
  map-Keeps n h (some b') e = e

  write-Keeps :
      (n : Names) (fuel : ℕ) (h : FileWriterHandle) → names h ≡ n → Keeps n (write disk fuel h)
  unfolding write
  write-Keeps n fuel h e = if_cases (Keeps n) (not h.is_open) e (
      if_cases (Keeps n) (is_over_limit h) (map-Keeps n h (discard fuel h.buffer) e)
        (write_loop-Keeps n fuel h e))

  result-Keeps :
      (n : Names) (o : Option (Bool × FileWriterHandle))
      → Keeps n o
      → Keeps n (Option.map (λ r. (true, r.1)) o)
  result-Keeps n none e = tt
  result-Keeps n (some (ok, h)) e = e

  writer_process-Keeps :
      (n : Names) (fuel : ℕ) (arrived : FileWriterBuffer → FileWriterBuffer) (h : FileWriterHandle)
      → names h ≡ n
      → Keeps n (writer_process disk fuel arrived h)
  unfolding writer_process
  writer_process-Keeps n fuel arrived h e = if_cases (Keeps n) (not h.is_open || h.writer_quit) e (
      if_cases
        (λ h₁. Keeps n (
          if h₁.is_open && not (size h₁.buffer == 0)
          then Option.map (λ r. (true, r.1)) (write disk fuel h₁)
          else some (true, h₁)))
        (size h.buffer == 0) (awake _ e) (awake h e))
    where
      awake :
          (h₁ : FileWriterHandle)
          → names h₁ ≡ n
          → Keeps n (
              if h₁.is_open && not (size h₁.buffer == 0)
              then Option.map (λ r. (true, r.1)) (write disk fuel h₁)
              else some (true, h₁))
      awake h₁ e₁ =
          if_cases (Keeps n) (h₁.is_open && not (size h₁.buffer == 0))
            (result-Keeps n (write disk fuel h₁) (write-Keeps n fuel h₁ e₁)) e₁

  -- The writer thread, `while (WriterProcess()) { }`: its rounds, each with its fuel and with what
  -- arrives while it waits.
  unfoldable pub rounds :
      List (ℕ × (FileWriterBuffer → FileWriterBuffer)) → FileWriterHandle → Option FileWriterHandle
  rounds [] h = some h
  rounds ((fuel, arrived) ∷ rs) h = elim (writer_process disk fuel arrived h) [
    | none ↦ none
    | some (ok, h') ↦ if ok then rounds rs h' else some h'
  ]

  rounds-names :
      (rs : List (ℕ × (FileWriterBuffer → FileWriterBuffer))) (h h' : FileWriterHandle)
      → rounds rs h ≡ some h'
      → names h' ≡ names h
  unfolding rounds
  rounds-names [] h h' e = ground arith
  rounds-names ((fuel, arrived) ∷ rs) h h' e =
      go (writer_process disk fuel arrived h) (λ h₁. rounds-names rs h₁ h')
        (writer_process-Keeps (names h) fuel arrived h refl) e
    where
      go :
          (o : Option (Bool × FileWriterHandle))
          → ((h₁ : FileWriterHandle) → rounds rs h₁ ≡ some h' → names h' ≡ names h₁)
          → Keeps (names h) o
          → elim o [ none ↦ none | some (ok, h₁) ↦ if ok then rounds rs h₁ else some h₁ ] ≡ some h'
          → names h' ≡ names h
      go none ih k e₁ = cc
      go (some (true, h₁)) ih k e₁ = ih h₁ e₁ ∙ k
      go (some (false, h₁)) ih k e₁ = cc

  module _ (is_folder : Text → Bool) (open_ok : Text → Bool) (date_string : Text) where
    -- A file that `Open` creates under a temporary name is renamed once, by `Close`, from that name
    -- to the final one, whatever the writer thread does in between; then the file is closed.
    pub open_rounds-close :
        (dirname prefix extension : Text) (limit : ℕ) (h h₁ h₂ : FileWriterHandle)
        (rs : List (ℕ × (FileWriterBuffer → FileWriterBuffer)))
        → open_file is_folder open_ok date_string dirname prefix extension limit true h ≡ (true, h₁)
        → rounds rs h₁ ≡ some h₂
        → let name = open_filename date_string dirname prefix extension in
          ((close h₂).moves ≡ (name ++ temporary_file_name_extension, name) ∷ h.moves)
          × ((close h₂).is_open ≡ false)
    unfolding open_file finish_open open_and_spawn close
    open_rounds-close dirname prefix extension limit h h₁ h₂ rs opened ran =
        ground (arith, rounds-names rs h₁ h₂ ran)
