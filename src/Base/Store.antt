-- ===== src/Base/Store.antt =====
-- Memory and object stores as functions from addresses, and arrays inside such a memory.
use Prim.Native.Nat.{ℕ, zero, suc, ◌+◌, ◌≤◌, ◌<◌}
use mathlib.Core.Path.{◌≡◌, refl, ap, ap₂, ◌∙◌}
use mathlib.Core.Logic.{◌≢◌}
use mathlib.Core.List.{List, [], ◌∷◌, ◌++◌}
use native.Mathlib.Omega.{arith}
use rpi_webrtc_streamer.Base.Tests.{◌==◌, if◌then◌else◌}
use rpi_webrtc_streamer.Base.Lists.{length}

-- `m` with the value `v` at the address `p`.
abbrev pub update {ℓ} : {A : Type ℓ} → (ℕ → A) → ℕ → A → ℕ → A
update m p v q = if q == p then v else m q

pub update_self {ℓ} : {A : Type ℓ} (m : ℕ → A) (p : ℕ) (v : A) → update m p v p ≡ v
update_self m p v = ground arith

pub update_ne {ℓ} : {A : Type ℓ} (m : ℕ → A) (p q : ℕ) (v : A) → q ≢ p → update m p v q ≡ m q
update_ne m p q v h = ground arith

-- The `n` bytes from the address `off` on.
abbrev pub slice : (ℕ → ℕ) → ℕ → ℕ → List ℕ
slice m off zero = []
slice m off (suc n) = m off ∷ slice m (suc off) n

-- `memcpy` of the bytes to the address `off`.
abbrev pub copy_in : (ℕ → ℕ) → ℕ → List ℕ → ℕ → ℕ
copy_in m off [] = m
copy_in m off (b ∷ bs) = copy_in (update m off b) (suc off) bs

pub length-slice : (m : ℕ → ℕ) (off n : ℕ) → length (slice m off n) ≡ n
length-slice m off zero = refl
length-slice m off (suc n) = ap suc (length-slice m (suc off) n)

-- An address below the target keeps its byte.
pub copy_in_below : (m : ℕ → ℕ) (off : ℕ) (bs : List ℕ) (q : ℕ) → q < off → copy_in m off bs q ≡ m q
copy_in_below m off [] q h = refl
copy_in_below m off (b ∷ bs) q h =
    copy_in_below (update m off b) (suc off) bs q (omega arith) ∙ update_ne m off q b (omega arith)

pub slice-copy_in_below :
    (m : ℕ → ℕ) (off : ℕ) (bs : List ℕ) (s n : ℕ)
    → s + n ≤ off
    → slice (copy_in m off bs) s n ≡ slice m s n
slice-copy_in_below m off bs s zero h = refl
slice-copy_in_below m off bs s (suc n) h =
    ap₂ ◌∷◌ (copy_in_below m off bs s (omega arith))
      (slice-copy_in_below m off bs (suc s) n (omega arith))

-- What was copied in is read back.
pub slice-copy_in :
    (m : ℕ → ℕ) (off : ℕ) (bs : List ℕ) → slice (copy_in m off bs) off (length bs) ≡ bs
slice-copy_in m off [] = refl
slice-copy_in m off (b ∷ bs) =
    ap₂ ◌∷◌ (copy_in_below (update m off b) (suc off) bs off (omega arith) ∙ update_self m off b)
      (slice-copy_in (update m off b) (suc off) bs)

pub slice-append : (m : ℕ → ℕ) (s j n : ℕ) → slice m s (j + n) ≡ slice m s j ++ slice m (s + j) n
slice-append m s zero n = ap₂ (slice m) (omega arith) (omega arith)
slice-append m s (suc j) n =
    let len : suc j + n ≡ suc (j + n) = omega arith in
    let place : suc s + j ≡ s + suc j = omega arith in
    ap (slice m s) len
    ∙ ap (◌∷◌ (m s)) (slice-append m (suc s) j n ∙ ap (λ t. slice m (suc s) j ++ slice m t n) place)
