-- ===== src/Blob/Ids/Acquire.antt =====
-- AccquireBlobId takes the first id that is not in use.
use rpi_webrtc_streamer.Base.{
  ℕ, zero, suc, ◌+◌, ◌≤◌, ◌<◌, ◌≡◌, refl, sym, subst, Bool, true, false, Option, none, some, arith,
  ℕ_discrete, if◌then◌else◌, update,
}
use rpi_webrtc_streamer.Blob.Ids.{
  RaspiMotionBlob, is_unused, collecting_blob, acquire_from, acquire_blob_id,
}

abbrev pub InUse : RaspiMotionBlob → ℕ → Type 0
InUse s id = is_unused (s.blob_list id).status ≡ false

-- What is acquired from the `n` ids from `bid` on.
abbrev pub Acquired : RaspiMotionBlob → ℕ → ℕ → Option (ℕ × RaspiMotionBlob) → Type 0
Acquired s n bid none = (i : ℕ) → bid ≤ i → i < bid + n → InUse s i
Acquired s n bid (some (id, s')) =
    (bid ≤ id)
    × (id < bid + n)
    × (is_unused (s.blob_list id).status ≡ true)
    × ((i : ℕ) → bid ≤ i → i < id → InUse s i)
    × (s' ≡ record s { blob_list = update s.blob_list id (collecting_blob (s.blob_list id)) })

more-InUse :
    (s : RaspiMotionBlob) (n bid : ℕ) (r : Option (ℕ × RaspiMotionBlob))
    → InUse s bid
    → Acquired s n (suc bid) r
    → Acquired s (suc n) bid r
more-InUse s n bid none used a = λ i le lt. elim (ℕ_discrete i bid) [
  | yes e ↦ subst (InUse s) (sym e) used
  | no ne ↦ a i (grind arith) (omega arith)
]
more-InUse s n bid (some (id, s')) used (above, below, free, first, same) = (
  omega arith,
  omega arith,
  free,
  λ i le lt. elim (ℕ_discrete i bid) [
    | yes e ↦ subst (InUse s) (sym e) used
    | no n ↦ first i (grind arith) lt
  ],
  same,
)

first_or_rest :
    (s : RaspiMotionBlob) (n bid : ℕ) (r : Option (ℕ × RaspiMotionBlob)) (free : Bool)
    → is_unused (s.blob_list bid).status ≡ free
    → Acquired s n (suc bid) r
    → Acquired s (suc n) bid (
        if free
        then some (
          bid,
          record s { blob_list = update s.blob_list bid (collecting_blob (s.blob_list bid)) },
        )
        else r)
first_or_rest s n bid r true e a =
    (omega arith, omega arith, e, λ i le lt. absurd (omega arith), refl)
first_or_rest s n bid r false e a = more-InUse s n bid r e a

acquire_from-Acquired : (n bid : ℕ) (s : RaspiMotionBlob) → Acquired s n bid (acquire_from n bid s)
unfolding acquire_from
acquire_from-Acquired zero bid s = λ i le lt. absurd (omega arith)
acquire_from-Acquired (suc n) bid s =
    first_or_rest s n bid (acquire_from n (suc bid) s) (is_unused (s.blob_list bid).status) refl
      (acquire_from-Acquired n (suc bid) s)

-- AccquireBlobId takes the first of the ids from 2 to 255 that is not in use, with a blank blob, and
-- leaves the rest of the state as it is; it fails exactly when all of them are in use.
pub acquire_blob_id-Acquired : (s : RaspiMotionBlob) → Acquired s 254 2 (acquire_blob_id s)
unfolding acquire_blob_id
acquire_blob_id-Acquired s = acquire_from-Acquired 254 2 s
