-- ===== src/Motion/Detection/Clearing.antt =====
-- When a detected motion ends.
use rpi_webrtc_streamer.Base.{
  ℕ, ◌+◌, ◌^◌, ◌≤◌, ◌<◌, ◌≡◌, refl, ◌∙◌, ◌≢◌, Option, List, [], ◌∷◌, arith, sub_size, ◌*◌, ◌/◌,
  none, some,
}
use rpi_webrtc_streamer.Motion.Detection.{
  cleared, triggered, wait_clear, Detection, Call, triggers, clears, points, observe, observe_all,
  update_average,
}

-- The time of a call.
abbrev pub time_of : Call → ℕ
time_of (triggers now n) = now
time_of (clears now n) = now
time_of (points now t a) = now

-- The calls come one after the other, the first at `now` or later and the last at `limit` at most.
abbrev pub Within : ℕ → ℕ → List Call → Type 0
Within now limit [] = Unit
Within now limit (c ∷ cs) = (now ≤ time_of c) × (time_of c ≤ limit) × Within (time_of c) limit cs

-- At the time `now` a motion is detected and, if it is to be cleared, waits since `start` or later.
record Lasts (start now period : ℕ) (d : Detection) : Type 0 where
  detected : d.motion_state ≢ cleared
  since :
      d.motion_state ≡ wait_clear
      → (start ≤ d.clear_wait_timestamp) × (d.clear_wait_timestamp ≤ now)
  same_period : d.clear_wait_period ≡ period

module _ (average : List ℕ → Option ℕ) where
  update_average-cleared :
      (now a : ℕ) (d : Detection)
      → d.motion_state ≢ cleared
      → (update_average average now a d).motion_state ≡ cleared
      → (a < d.active_percent_clear_threshold)
        × (d.motion_state ≡ wait_clear)
        × (d.clear_wait_period < sub_size now d.clear_wait_timestamp)
  unfolding update_average
  update_average-cleared now a d h e = ground arith

  -- The call `c` tells the number of active points, from the waiting state and after the waiting
  -- period, and brings the average percentage of the samples below the threshold.
  abbrev pub ClearedBy : Call → Detection → Type 0
  ClearedBy c d =
      (total : ℕ) × (active : ℕ) × (percent : ℕ) × (c ≡ points (time_of c) total active)
      × (average ((active * 100 / total) ∷ d.samples) ≡ some percent)
      × (percent < d.active_percent_clear_threshold)
      × (d.motion_state ≡ wait_clear)
      × (d.clear_wait_period < sub_size (time_of c) d.clear_wait_timestamp)

  -- A detected motion ends only by a call with the current number of points, from the waiting state
  -- and after the waiting period, and only if the average percentage of active points, this call
  -- included, is below the clearing threshold.
  pub observe_ends :
      (c : Call) (d : Detection)
      → d.motion_state ≢ cleared
      → (observe average c d).motion_state ≡ cleared
      → ClearedBy c d
  unfolding observe
  observe_ends (triggers now n) d h e = absurd (ground arith)
  observe_ends (clears now n) d h e = absurd (ground arith)
  observe_ends (points now t a) d h e = go (average ((a * 100 / t) ∷ d.samples)) refl e
    where
      after : Option ℕ → Detection
      after o = elim o [
        | none ↦ record d { samples = (a * 100 / t) ∷ d.samples }
        | some x ↦ update_average average now x (record d { samples = (a * 100 / t) ∷ d.samples })
      ]

      go :
          (o : Option ℕ)
          → average ((a * 100 / t) ∷ d.samples) ≡ o
          → (after o).motion_state ≡ cleared
          → ClearedBy (points now t a) d
      go none k c = absurd (h c)
      go (some x) k c =
          let (below, waits, passed) =
            update_average-cleared now x (record d { samples = (a * 100 / t) ∷ d.samples }) h c in
          (t, a, x, refl, k, below, waits, passed)

  keeps_period :
      (c : Call) (d : Detection) → (observe average c d).clear_wait_period ≡ d.clear_wait_period
  unfolding observe
  keeps_period (triggers now n) d = refl
  keeps_period (clears now n) d = ground arith
  keeps_period (points now t a) d = ground arith

  keeps_start :
      (start now : ℕ) (c : Call) (d : Detection)
      → start ≤ now
      → now ≤ time_of c
      → (d.motion_state ≡ wait_clear
          → (start ≤ d.clear_wait_timestamp) × (d.clear_wait_timestamp ≤ now))
      → (observe average c d).motion_state ≡ wait_clear
      → (start ≤ (observe average c d).clear_wait_timestamp)
        × ((observe average c d).clear_wait_timestamp ≤ time_of c)
  unfolding observe
  keeps_start start now (triggers t n) d h l k e = ground arith
  keeps_start start now (clears t n) d h l k e = ground arith
  keeps_start start now (points t n a) d h l k e = ground arith

  observe-Lasts :
      (start now period : ℕ) (c : Call) (d : Detection)
      → start + period < 2 ^ 64
      → start ≤ now
      → now ≤ time_of c
      → time_of c ≤ start + period
      → Lasts start now period d
      → Lasts start (time_of c) period (observe average c d)
  observe-Lasts start now period c d small lo hi top l = record {
    detected = λ e.
        let (_, _, _, _, _, _, waiting, passed) = observe_ends c d l.detected e in
        omega (arith, l.since waiting, l.same_period);
    since = keeps_start start now c d lo hi l.since;
    same_period = keeps_period c d ∙ l.same_period;
  }

  observe_all-detected :
      (start now period : ℕ) (cs : List Call) (d : Detection)
      → start + period < 2 ^ 64
      → start ≤ now
      → Within now (start + period) cs
      → Lasts start now period d
      → (observe_all average cs d).motion_state ≢ cleared
  unfolding observe_all
  observe_all-detected start now period [] d small lo w l = l.detected
  observe_all-detected start now period (c ∷ cs) d small lo w l =
      observe_all-detected start (time_of c) period cs (observe average c d) small (omega arith) w.2
        (observe-Lasts start now period c d small lo w.0 w.1 l)

  -- A motion that is detected at the time `start` is still detected after any calls of the observers,
  -- in the order of their times, within the waiting period from then on.
  pub motion_lasts :
      (start : ℕ) (cs : List Call) (d : Detection)
      → d.motion_state ≡ triggered
      → start + d.clear_wait_period < 2 ^ 64
      → Within start (start + d.clear_wait_period) cs
      → (observe_all average cs d).motion_state ≢ cleared
  motion_lasts start cs d e small w =
      observe_all-detected start start d.clear_wait_period cs d small (omega arith) w (record {
        detected = λ c. absurd (ground arith);
        since = λ c. absurd (ground arith);
        same_period = refl;
      })
