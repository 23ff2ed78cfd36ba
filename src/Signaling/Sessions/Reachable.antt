-- ===== src/Signaling/Sessions/Reachable.antt =====
-- Every state that the channels reach has one session at most.
use rpi_webrtc_streamer.Base.{
  ℕ, ◌≡◌, refl, sym, ap, subst, ◌∙◌, ◌≢◌, Bool, true, false, Option, none, some, List, arith, ◌==◌,
}
use rpi_webrtc_streamer.Signaling.Sessions.{
  Reach, here, next, IsExclusive, idle, in_session, run_log, phase_of,
}
use rpi_webrtc_streamer.Signaling.{
  Effect, StreamerProxy, SignalingChannelHelper, Signaling, is_channel, is_signaling_session_active,
}
use rpi_webrtc_streamer.Signaling.Sessions.Ends.{run_log-append, Follows, Helpers, is_on, state_of}
use rpi_webrtc_streamer.Signaling.Sessions.Steps.{Step-Follows}

Reach-Follows :
    {s t : Signaling} {log : List Effect} → Reach s log t → IsExclusive s → Follows s log t
unfolding run_log
Reach-Follows here v = (refl, refl, v)
Reach-Follows {s = s} (next {log = log} {effects = effects} {t = t} {u = u} r step) v =
    let (ran, holder, w) = Reach-Follows r v in
    let (ran', holder', w') = Step-Follows step w in
    (
      run_log-append s.proxy.has_motion_holder (phase_of s.proxy) (phase_of t.proxy) log effects ran
          ∙ subst (λ h. run_log h (phase_of t.proxy) effects ≡ some (phase_of u.proxy)) holder ran',
      holder' ∙ holder,
      w',
    )

-- The channel of the proxy is the one with the session.
active_is_channel :
    (active : Option ℕ) (peer : ℕ) (holder : Bool) (helpers : Helpers) (k : ℕ) (on : Bool)
    → is_on helpers k ≡ on
    → IsExclusive (state_of active peer holder helpers)
    → is_on helpers k ≡ is_channel active k
active_is_channel none peer holder helpers k false e v = e
active_is_channel none peer holder helpers k true e v = absurd (ground (arith, v.owner k e))
active_is_channel (some c) peer holder helpers k false e v =
    e ∙ sym (other_channel λ same. ground (arith, e, (v.owned k (ap some same)).0))
  where
    other_channel : c ≢ k → (c == k) ≡ false
    other_channel n = ground arith
active_is_channel (some c) peer holder helpers k true e v = e ∙ sym (same_channel (v.owner k e))
  where
    same_channel : some c ≡ some k → (c == k) ≡ true
    same_channel h = ground arith

-- From a state without sessions, whatever the channels call, in any order, if a channel starts a
-- session only when it has none: a channel has a session exactly when it is the one that the proxy
-- has, so at most one channel has; the streamer is told of a peer, of messages of that peer alone,
-- and of its end, in this order and one peer at a time; the motion detection is stopped before and
-- started again after each of these sessions, if there is a motion holder.
pub Reach-IsExclusive :
    (proxy : StreamerProxy) (helpers : ℕ → SignalingChannelHelper) (t : Signaling)
    (log : List Effect) (k : ℕ)
    → proxy.active_signaling_outbound ≡ none
    → ((j : ℕ) → (helpers j).streamsession_active ≡ false)
    → Reach (record { proxy = proxy; helpers = helpers }) log t
    → (is_signaling_session_active k t ≡ is_channel t.proxy.active_signaling_outbound k)
      × (run_log proxy.has_motion_holder idle log ≡ some (phase_of t.proxy))
Reach-IsExclusive proxy helpers t log k no_session off r =
    let v : IsExclusive (record { proxy = proxy; helpers = helpers }) = record {
      owner = λ k on. absurd (ground (arith, off k, on));
      owned = λ k e. absurd (ground (arith, no_session, e));
    } in
    let (ran, _, w) = Reach-Follows r v in
    (
      active_is_channel t.proxy.active_signaling_outbound t.proxy.active_peer_id
          t.proxy.has_motion_holder t.helpers k (is_on t.helpers k) refl w,
      subst
          (λ a.
            run_log proxy.has_motion_holder
              (elim a [ none ↦ idle | some c ↦ in_session proxy.active_peer_id ]) log
            ≡ some (phase_of t.proxy))
          no_session ran,
    )
