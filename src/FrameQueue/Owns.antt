-- ===== src/FrameQueue/Owns.antt =====
-- A list of buffers that a queue owns: each is alive, has room for `size` bytes and is named once,
-- and `cap` of them are permanent. The lemmas follow the steps of `WriteBack`.
use rpi_webrtc_streamer.Base.{
  ℕ, ◌+◌, ◌≤◌, ◌<◌, ◌≡◌, ap, subst, ◌∙◌, ◌⊎◌, inl, inr, true, false, Option, some, List, ◌∷◌, ◌++◌,
  arith, ◌==◌, if◌then◌else◌, ==_iff, Bool-cases, le_or_lt, length, occ, occ-append, occ_self,
  update, update_self,
}
use mathlib.Core.Path.{fun_ext}
use rpi_webrtc_streamer.FrameQueue.{FrameBuffer}
use rpi_webrtc_streamer.FrameQueue.Ownership.{
  Heap, is_permanent, permanents, permanents-append, Agree, update-Agree, permanents-Agree,
}
use rpi_webrtc_streamer.FrameQueue.TakeFree.{Takes}

abbrev pub IsAlive : Heap → ℕ → ℕ → ℕ → Type 0
IsAlive heap size fresh p =
    (b : FrameBuffer) × (heap p ≡ some b)
    × ((length b.content ≤ size) × (b.capacity ≡ size))
    × (p < fresh)

pub record Owns (heap : Heap) (size fresh cap : ℕ) (xs : List ℕ) : Type 0 where
  pub alive : (p : ℕ) → 0 < occ p xs → IsAlive heap size fresh p
  pub once : (p : ℕ) → occ p xs ≤ 1
  pub counted : permanents heap xs ≡ cap

-- What a buffer adds to the count.
abbrev pub weight : Option FrameBuffer → ℕ
weight o = if is_permanent o then 1 else 0

-- The order of the list does not matter.
pub Owns-order :
    {heap : Heap} {size fresh cap : ℕ} (xs ys : List ℕ)
    → ((p : ℕ) → occ p ys ≡ occ p xs)
    → permanents heap ys ≡ permanents heap xs
    → Owns heap size fresh cap xs
    → Owns heap size fresh cap ys
Owns-order xs ys same equal o = record {
  alive = λ p m. o.alive p (omega (arith, m, same p));
  once = λ p. omega (arith, same p, o.once p);
  counted = equal ∙ o.counted;
}

-- The contents of a buffer change, and it stays permanent or temporary.
pub Owns-update :
    {heap : Heap} {size fresh cap : ℕ} (xs : List ℕ) (p : ℕ) (b b' : FrameBuffer)
    → heap p ≡ some b
    → b'.temporary ≡ b.temporary
    → b'.capacity ≡ b.capacity
    → length b'.content ≤ size
    → Owns heap size fresh cap xs
    → Owns (update heap p (some b')) size fresh cap xs
Owns-update {heap} {size} {fresh} xs p b b' e t room fits o = record {
  alive = λ q m. alive q (o.alive q m) (Bool-cases (q == p));
  once = o.once;
  counted = permanents_same xs ∙ o.counted;
}
  where
    alive :
        (q : ℕ)
        → IsAlive heap size fresh q
        → ((q == p) ≡ true) ⊎ ((q == p) ≡ false)
        → IsAlive (update heap p (some b')) size fresh q
    alive q (c, f, len, lt) (inl same) =
        let at : heap q ≡ heap p = ap heap ((==_iff q p).0 same) in
        let as_before : b.capacity ≡ c.capacity = cc in
        (b', rw same, (fits, room ∙ as_before ∙ len.1), lt)
    alive q (c, f, len, lt) (inr away) = (c, rw away f, len, lt)

    flag : (q : ℕ) → is_permanent (update heap p (some b') q) ≡ is_permanent (heap q)
    flag q = elim (Bool-cases (q == p)) [
      | inl same ↦ rw (same, (==_iff q p).0 same, e, t)
      | inr away ↦ rw away
    ]

    permanents_same : (ys : List ℕ) → permanents (update heap p (some b')) ys ≡ permanents heap ys
    permanents_same ys = rw (fun_ext flag)

-- A buffer comes from the free list `ps`, which stands behind `enc`.
pub Owns-take :
    {heap heap' : Heap} {size fresh cap x : ℕ} {rest : List ℕ} (enc ps : List ℕ)
    → Takes heap ps x rest heap'
    → Owns heap size fresh cap (enc ++ ps)
    → Owns heap' size fresh cap (x ∷ (enc ++ rest))
Owns-take {heap} {heap'} {size} {fresh} {cap} {x} {rest} enc ps t o = record {
  alive = λ p m.
      let (b, e, len, lt) = o.alive p (omega (arith, m, members p, occ-append p enc ps)) in
      (b, same p m ∙ e, len, lt);
  once = λ p. omega (arith, members p, o.once p);
  counted = omega (
    arith,
    o.counted,
    t.counted,
    head,
    permanents-Agree heap' heap (x ∷ (enc ++ rest)) same,
    permanents-append heap enc rest,
    permanents-append heap enc ps,
  );
}
  where
    members : (p : ℕ) → occ p (x ∷ (enc ++ rest)) ≤ occ p (enc ++ ps)
    members p = omega (arith, t.members p, occ-append p enc rest, occ-append p enc ps)

    head : weight (heap x) ≡ 1
    head = rw (t.found, t.permanent)

    -- what is encoded is not free
    same : Agree heap' heap (x ∷ (enc ++ rest))
    same p m = elim (le_or_lt (occ p (x ∷ rest)) 0) [
      | inl gone ↦
          t.others p (omega (arith, m, o.once p, occ-append p enc rest, occ-append p enc ps))
      | inr there ↦ t.kept p there
    ]

-- The name that `new` gives next is not in use.
pub Owns-fresh :
    {heap : Heap} {size fresh cap : ℕ} (xs : List ℕ)
    → Owns heap size fresh cap xs
    → occ fresh xs ≡ 0
Owns-fresh {fresh = fresh} xs o = elim (le_or_lt (occ fresh xs) 0) [
  | inl z ↦ omega arith
  | inr m ↦ absurd (omega (arith, (o.alive fresh m).3))
]

-- A new buffer.
pub Owns-add :
    {heap : Heap} {size fresh cap : ℕ} (xs : List ℕ) (b : FrameBuffer)
    → length b.content ≤ size
    → b.capacity ≡ size
    → Owns heap size fresh cap xs
    → Owns (update heap fresh (some b)) size (fresh + 1) (weight (some b) + cap) (fresh ∷ xs)
Owns-add {heap} {size} {fresh} {cap} xs b fits room o = record {
  alive = λ q m. alive q m (Bool-cases (q == fresh));
  once = once;
  counted = omega (
    arith,
    o.counted,
    ap weight (update_self heap fresh (some b)),
    permanents-Agree (update heap fresh (some b)) heap xs
        (update-Agree heap fresh (some b) xs absent),
  );
}
  where
    absent : occ fresh xs ≡ 0
    absent = Owns-fresh xs o

    alive :
        (q : ℕ)
        → 0 < occ q (fresh ∷ xs)
        → ((q == fresh) ≡ true) ⊎ ((q == fresh) ≡ false)
        → IsAlive (update heap fresh (some b)) size (fresh + 1) q
    alive q m (inl same) = (b, rw same, (fits, room), omega (arith, (==_iff q fresh).0 same))
    alive q m (inr away) =
        let (c, e, len, lt) = o.alive q (ground (arith, m)) in (c, rw away e, len, omega arith)

    once : (q : ℕ) → occ q (fresh ∷ xs) ≤ 1
    once q = elim (Bool-cases (q == fresh)) [
      | inl same ↦ omega (
        arith,
        (==_iff q fresh).0 same,
        absent,
        occ_self fresh xs,
        ap (λ t. occ t (fresh ∷ xs)) ((==_iff q fresh).0 same),
      )
      | inr away ↦ ground (arith, o.once q)
    ]

-- A new temporary buffer.
pub Owns-new :
    {heap : Heap} {size fresh cap : ℕ} (xs : List ℕ) (b : FrameBuffer)
    → b.temporary ≡ true
    → length b.content ≤ size
    → b.capacity ≡ size
    → Owns heap size fresh cap xs
    → Owns (update heap fresh (some b)) size (fresh + 1) cap (fresh ∷ xs)
Owns-new {heap} {size} {fresh} {cap} xs b t fits room o =
    subst (λ c. Owns (update heap fresh (some b)) size (fresh + 1) c (fresh ∷ xs)) (same t)
      (Owns-add xs b fits room o)
  where
    same : b.temporary ≡ true → weight (some b) + cap ≡ cap
    same e = ground arith
