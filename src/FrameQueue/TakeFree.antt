-- ===== src/FrameQueue/TakeFree.antt =====
-- The loop of `WriteBack` that takes a buffer from the free list.
use rpi_webrtc_streamer.Base.{
  ℕ, ◌+◌, ◌≤◌, ◌<◌, ◌≡◌, refl, sym, ap, ◌∙◌, ◌≢◌, inl, inr, true, false, Option, none, some, List,
  [], ◌∷◌, arith, Bool-cases, occ, occ_head, occ_self, update, update_ne,
}
use rpi_webrtc_streamer.FrameQueue.{FrameBuffer, take_free}
use rpi_webrtc_streamer.FrameQueue.Ownership.{
  Heap, permanents, Agree, update-Agree, permanents-Agree,
}

-- What the loop returns: the first permanent buffer and what stands behind it; the heap has changed
-- only at buffers that are in neither.
pub record Takes (heap : Heap) (ps : List ℕ) (x : ℕ) (rest : List ℕ) (heap' : Heap) : Type 0 where
  pub buffer : FrameBuffer
  pub found : heap x ≡ some buffer
  pub permanent : buffer.temporary ≡ false
  pub members : (p : ℕ) → occ p (x ∷ rest) ≤ occ p ps
  pub counted : permanents heap rest + 1 ≡ permanents heap ps
  pub kept : Agree heap' heap (x ∷ rest)
  pub others : (p : ℕ) → occ p ps ≡ 0 → heap' p ≡ heap p

abbrev pub Outcome : Heap → List ℕ → Option (ℕ × List ℕ × Heap) → Type 0
Outcome heap ps none = permanents heap ps ≡ 0
Outcome heap ps (some (x, rest, heap')) = Takes heap ps x rest heap'

-- A temporary buffer at the front is not counted, and deleting it changes nothing behind it.
permanents-skip :
    (heap : Heap) (p : ℕ) (b : FrameBuffer) (ps : List ℕ)
    → heap p ≡ some b
    → b.temporary ≡ true
    → occ p ps ≡ 0
    → permanents heap (p ∷ ps) ≡ permanents (update heap p none) ps
permanents-skip heap p b ps e t z =
    rw (e, t)
      (omega (arith, permanents-Agree (update heap p none) heap ps (update-Agree heap p none ps z)))

-- The members of a list do not name what it does not hold.
ne_of_occ : (p q : ℕ) (ps : List ℕ) → 0 < occ q ps → occ p ps ≡ 0 → q ≢ p
ne_of_occ p q ps m z e = omega (arith, ap (λ t. occ t ps) e)

-- A temporary buffer at the front goes; the rest of the loop runs on the heap without it.
skip_temporary :
    (heap : Heap) (p : ℕ) (b : FrameBuffer) (ps : List ℕ) (r : Option (ℕ × List ℕ × Heap))
    → heap p ≡ some b
    → b.temporary ≡ true
    → occ p ps ≡ 0
    → Outcome (update heap p none) ps r
    → Outcome heap (p ∷ ps) r
skip_temporary heap p b ps none e t z o = permanents-skip heap p b ps e t z ∙ o
skip_temporary heap p b ps (some (x, rest, heap')) e t z o = record {
  buffer = o.buffer;
  found = sym (update_ne heap p x none (away x (occ_head x rest))) ∙ o.found;
  permanent = o.permanent;
  members = λ q. omega (arith, o.members q);
  counted = omega (
    arith,
    o.counted,
    permanents-skip heap p b ps e t z,
    permanents-Agree (update heap p none) heap rest
        (λ q m. update_ne heap p q none (away q (omega (arith, m)))),
  );
  kept = λ q m. o.kept q m ∙ update_ne heap p q none (away q m);
  others = λ q k.
      o.others q (omega (arith, k))
      ∙ update_ne heap p q none (λ e. omega (arith, k, ap (λ t. occ t (p ∷ ps)) e, occ_self p ps));
}
  where
    away : (q : ℕ) → 0 < occ q (x ∷ rest) → q ≢ p
    away q m = ne_of_occ p q ps (omega (arith, m, o.members q)) z

stop_permanent :
    (heap : Heap) (p : ℕ) (b : FrameBuffer) (ps : List ℕ)
    → heap p ≡ some b
    → b.temporary ≡ false
    → Takes heap (p ∷ ps) p ps heap
stop_permanent heap p b ps e t = record {
  buffer = b;
  found = e;
  permanent = t;
  members = λ q. omega arith;
  counted = rw (e, t) (omega arith);
  kept = λ q m. refl;
  others = λ q k. refl;
}

pub take_free-Outcome :
    (heap : Heap) (ps : List ℕ)
    → ((p : ℕ) → 0 < occ p ps → (b : FrameBuffer) × (heap p ≡ some b))
    → ((p : ℕ) → occ p ps ≤ 1)
    → Outcome heap ps (take_free heap ps)
unfolding take_free
take_free-Outcome heap [] alive once = refl
take_free-Outcome heap (p ∷ ps) alive once =
    let (b, e) = alive p (occ_head p ps) in
    let z : occ p ps ≡ 0 = omega (arith, once p, occ_head p ps, occ_self p ps) in
    elim (Bool-cases b.temporary) [
      | inl t ↦
          rw (e, t, take_free)
            (skip_temporary heap p b ps _ e t z (
              take_free-Outcome (update heap p none) ps
                (λ q m.
                  let (c, f) = alive q (omega (arith, m)) in
                  (c, update_ne heap p q none (ne_of_occ p q ps m z) ∙ f))
                (λ q. omega (arith, once q))))
      | inr t ↦ rw (e, t, take_free) (stop_permanent heap p b ps e t)
    ]
