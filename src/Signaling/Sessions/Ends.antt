-- ===== src/Signaling/Sessions/Ends.antt =====
-- The end of a session, and what the states and logs of the channels have in common.
use rpi_webrtc_streamer.Base.{
  ℕ, ◌≡◌, refl, sym, ap, subst, ◌∙◌, ◌≢◌, ◌⊎◌, inl, inr, Bool, true, false, Option, none, some,
  List, [], ◌∷◌, ◌++◌, arith, ◌==◌, if◌then◌else◌, ==_iff, Bool-cases, update, update_ne,
}
use rpi_webrtc_streamer.Signaling.Sessions.{
  IsExclusive, Phase, idle, motion_stopped, in_session, next_phase, run_log, phase_of,
}
use rpi_webrtc_streamer.Signaling.{
  Effect, motion_start, peer_disconnected, StreamerProxy, SignalingChannelHelper, Signaling,
  stop_signaling_session,
}

append_next :
    (holder : Bool) (o : Option Phase) (phase' : Phase) (xs ys : List Effect)
    → ((q : Phase)
        → run_log holder q xs ≡ some phase'
        → run_log holder q (xs ++ ys) ≡ run_log holder phase' ys)
    → elim o [ none ↦ none | some q ↦ run_log holder q xs ] ≡ some phase'
    → elim o [ none ↦ none | some q ↦ run_log holder q (xs ++ ys) ] ≡ run_log holder phase' ys
append_next holder none phase' xs ys run e = cc
append_next holder (some q) phase' xs ys run e = run q e

pub run_log-append :
    (holder : Bool) (phase phase' : Phase) (xs ys : List Effect)
    → run_log holder phase xs ≡ some phase'
    → run_log holder phase (xs ++ ys) ≡ run_log holder phase' ys
unfolding run_log
run_log-append holder phase phase' [] ys e = ap (λ p. run_log holder p ys) (phase_same e)
  where
    phase_same : some phase ≡ some phase' → phase ≡ phase'
    phase_same h = cc
run_log-append holder phase phase' (x ∷ xs) ys e =
    append_next holder (next_phase holder phase x) phase' xs ys
      (λ q. run_log-append holder q phase' xs ys) e

-- What a step does to an exclusive state.
abbrev pub Follows : Signaling → List Effect → Signaling → Type 0
Follows s es t =
    (run_log s.proxy.has_motion_holder (phase_of s.proxy) es ≡ some (phase_of t.proxy))
    × (t.proxy.has_motion_holder ≡ s.proxy.has_motion_holder)
    × IsExclusive t

abbrev pub Helpers : Type 0
Helpers = ℕ → SignalingChannelHelper

abbrev pub state_of : Option ℕ → ℕ → Bool → Helpers → Signaling
state_of active peer holder helpers = record {
  proxy = record {
    active_signaling_outbound = active;
    active_peer_id = peer;
    has_motion_holder = holder;
  };
  helpers = helpers;
}

abbrev pub is_on : Helpers → ℕ → Bool
is_on helpers k = (helpers k).streamsession_active

-- A channel that is set off is not on, and the others are as they were.
off_on :
    (helpers : Helpers) (channel peer k : ℕ)
    → is_on (update helpers channel (record { streamsession_active = false; peer_id = peer })) k
      ≡ true
    → (k ≢ channel) × (is_on helpers k ≡ true)
off_on helpers channel peer k h = ground arith

pub on_on :
    (helpers : Helpers) (channel peer k : ℕ)
    → is_on (update helpers channel (record { streamsession_active = true; peer_id = peer })) k
      ≡ true
    → (k ≡ channel) ⊎ (is_on helpers k ≡ true)
on_on helpers channel peer k h = ground arith

pub stop_none :
    (peer : ℕ) (holder : Bool) (helpers : Helpers) (channel : ℕ)
    → IsExclusive (state_of none peer holder helpers)
    → Follows
        (state_of none peer holder helpers)
        (stop_signaling_session channel (state_of none peer holder helpers)).0
        (stop_signaling_session channel (state_of none peer holder helpers)).1
unfolding stop_signaling_session run_log
stop_none peer holder helpers channel v = (
  refl,
  refl,
  record {
    owner = λ k on. v.owner k (off_on helpers channel (helpers channel).peer_id k on).1;
    owned = λ k e. absurd (cc);
  },
)

-- A session that ends gives the motion detection back.
stop_log :
    (holder : Bool) (peer q : ℕ)
    → peer ≡ q
    → run_log holder
        (in_session peer)
        (peer_disconnected q ∷ (if holder then motion_start ∷ [] else []))
      ≡ some idle
unfolding run_log next_phase
stop_log true peer q e = ground arith
stop_log false peer q e = ground arith

pub stop_some :
    (c peer : ℕ) (holder : Bool) (helpers : Helpers) (channel : ℕ)
    → IsExclusive (state_of (some c) peer holder helpers)
    → Follows
        (state_of (some c) peer holder helpers)
        (stop_signaling_session channel (state_of (some c) peer holder helpers)).0
        (stop_signaling_session channel (state_of (some c) peer holder helpers)).1
unfolding stop_signaling_session run_log
stop_some c peer holder helpers channel v = elim (Bool-cases (c == channel)) [
  | inl e ↦
      let same : c ≡ channel = (==_iff c channel).0 e in
      subst (λ b. P (choice b)) (sym e)
        (
          stop_log holder peer (helpers channel).peer_id
              ((v.owned c refl).1 ∙ ap (λ k. (helpers k).peer_id) same),
          refl,
          record {
            owner = λ k on.
                let (other, was) = off_on helpers channel q k on in
                absurd (other (one_owner (v.owner k was) ∙ same));
            owned = λ k e. absurd (no_owner e);
          },
        )
  | inr e ↦
      subst (λ b. P (choice b)) (sym e)
        (
          refl,
          refl,
          record {
            owner = λ k on. v.owner k (off_on helpers channel q k on).1;
            owned = λ k here.
                let other : k ≢ channel = λ same. ground (arith, one_owner here) in
                let kept = update_ne helpers channel k off other in
                (
                  ap (λ (h : SignalingChannelHelper). h.streamsession_active) kept
                      ∙ (v.owned k here).0,
                  (v.owned k here).1 ∙ sym (ap (λ (h : SignalingChannelHelper). h.peer_id) kept),
                );
          },
        )
]
  where
    q : ℕ
    q = (helpers channel).peer_id

    off : SignalingChannelHelper
    off = record { streamsession_active = false; peer_id = q }

    choice : Bool → List Effect × StreamerProxy
    choice b =
        if b
        then (
          peer_disconnected q ∷ (if holder then motion_start ∷ [] else []),
          record {
            active_signaling_outbound = none;
            active_peer_id = 0;
            has_motion_holder = holder;
          },
        )
        else (
          [],
          record {
            active_signaling_outbound = some c;
            active_peer_id = peer;
            has_motion_holder = holder;
          },
        )

    P : List Effect × StreamerProxy → Type 0
    P r =
        Follows (state_of (some c) peer holder helpers) r.0
          (record { proxy = r.1; helpers = update helpers channel off })

    one_owner : {a b : ℕ} → some a ≡ some b → b ≡ a
    one_owner h = cc

    no_owner : {a : ℕ} → ◌≡◌ {A = Option ℕ} none (some a) → ⊥
    no_owner h = cc

-- What the streamer may be told first.
abbrev pub Greets : ℕ → Effect → Type 0
Greets peer g =
    (next_phase true motion_stopped g ≡ some (in_session peer))
    × (next_phase false idle g ≡ some (in_session peer))
