-- ===== src/Signaling/Sessions/Steps.antt =====
-- The steps of the channels keep one session at a time.
use rpi_webrtc_streamer.Base.{
  ℕ, ◌≡◌, refl, sym, ap, ◌∙◌, ◌≢◌, inl, inr, Bool, true, false, Option, none, some, List, [], ◌∷◌,
  ◌++◌, arith, if◌then◌else◌, update, update_self, update_ne, Text,
}
use rpi_webrtc_streamer.Signaling.Sessions.{
  Step, start_step, start_message_step, stop_step, message_step, IsExclusive, idle, in_session,
  next_phase, run_log, phase_of,
}
use rpi_webrtc_streamer.Signaling.{
  Effect, motion_stop, peer_connected, peer_message, SignalingChannelHelper, Signaling, start_with,
  session_started, start_signaling_session, start_signaling_session_message, stop_signaling_session,
  message_from_peer, start_streamer_signaling, start_streamer_signaling_message,
  proxy_message_from_peer,
}
use rpi_webrtc_streamer.Signaling.Sessions.Ends.{
  Follows, Helpers, state_of, is_on, on_on, stop_none, stop_some, Greets,
}

start_log :
    (holder : Bool) (peer : ℕ) (g : Effect)
    → Greets peer g
    → run_log holder idle ((if holder then motion_stop ∷ [] else []) ++ (g ∷ []))
      ≡ some (in_session peer)
unfolding run_log next_phase
start_log true peer g greets = rw (run_log, greets.0)
start_log false peer g greets = rw (run_log, greets.1)

started-Follows :
    (active : Option ℕ) (old peer : ℕ) (holder : Bool) (helpers : Helpers) (channel : ℕ)
    (g : Effect)
    → Greets peer g
    → is_on helpers channel ≡ false
    → IsExclusive (state_of active old holder helpers)
    → let s = state_of active old holder helpers in
      let r = session_started channel peer s (start_with g channel peer s.proxy) in
      Follows s r.1 r.2
unfolding run_log
started-Follows none old peer holder helpers channel g greets free v = (
  start_log holder peer g greets,
  refl,
  record {
    owner = λ k on. elim (on_on helpers channel peer k on) [
      | inl same ↦ ap some (sym same)
      | inr was ↦ absurd (no_owner (v.owner k was))
    ];
    owned = λ k here.
        let same : k ≡ channel = cc in
        (
          ap (is_on (update helpers channel on_helper)) same
              ∙ ap (λ (h : SignalingChannelHelper). h.streamsession_active)
                  (update_self helpers channel on_helper),
          sym (
              ap (λ (i : ℕ). (update helpers channel on_helper i).peer_id) same
              ∙ ap (λ (h : SignalingChannelHelper). h.peer_id)
                  (update_self helpers channel on_helper)),
        );
  },
)
  where
    on_helper : SignalingChannelHelper
    on_helper = record { streamsession_active = true; peer_id = peer }

    no_owner : {a : ℕ} → ◌≡◌ {A = Option ℕ} none (some a) → ⊥
    no_owner h = cc
started-Follows (some c) old peer holder helpers channel g greets free v = (
  refl,
  refl,
  record {
    owner = λ k on. v.owner k (sym (same_on k) ∙ on);
    owned = λ k here.
        let other : k ≢ channel =
          λ same. ground (arith, (v.owned k here).0, free, ap (is_on helpers) same) in
        (
          same_on k ∙ (v.owned k here).0,
          (v.owned k here).1
              ∙ sym (
                  ap (λ (h : SignalingChannelHelper). h.peer_id)
                    (update_ne helpers channel k renamed other)),
        );
  },
)
  where
    renamed : SignalingChannelHelper
    renamed = record (helpers channel) { peer_id = peer }

    same_on : (k : ℕ) → is_on (update helpers channel renamed) k ≡ is_on helpers k
    same_on k = ground arith

stop-Follows :
    (active : Option ℕ) (peer : ℕ) (holder : Bool) (helpers : Helpers) (channel : ℕ)
    → let s = state_of active peer holder helpers in
      IsExclusive s
      → Follows s (stop_signaling_session channel s).0 (stop_signaling_session channel s).1
stop-Follows none peer holder helpers channel v = stop_none peer holder helpers channel v
stop-Follows (some c) peer holder helpers channel v = stop_some c peer holder helpers channel v

-- A message in a session, to the peer that the channel has.
message_log :
    (active : Option ℕ) (peer : ℕ) (holder : Bool) (helpers : Helpers) (channel : ℕ)
    (message : Text) (on : Bool)
    → is_on helpers channel ≡ on
    → IsExclusive (state_of active peer holder helpers)
    → let s = state_of active peer holder helpers in
      run_log holder
        (phase_of s.proxy)
        (if on then proxy_message_from_peer (helpers channel).peer_id message s.proxy else [])
      ≡ some (phase_of s.proxy)
unfolding proxy_message_from_peer run_log next_phase
message_log active peer holder helpers channel message false e v = refl
message_log none peer holder helpers channel message true e v = refl
message_log (some c) peer true helpers channel message true e v =
    ground (arith, (v.owned channel (v.owner channel e)).1)
message_log (some c) peer false helpers channel message true e v =
    ground (arith, (v.owned channel (v.owner channel e)).1)

pub Step-Follows :
    {s t : Signaling} {es : List Effect} → Step s es t → IsExclusive s → Follows s es t
unfolding start_signaling_session start_signaling_session_message start_streamer_signaling
    start_streamer_signaling_message message_from_peer next_phase
Step-Follows (start_step s channel peer config free) v =
    started-Follows s.proxy.active_signaling_outbound s.proxy.active_peer_id peer
      s.proxy.has_motion_holder s.helpers channel (peer_connected peer config) (refl, refl) free v
Step-Follows (start_message_step s channel peer message free) v =
    started-Follows s.proxy.active_signaling_outbound s.proxy.active_peer_id peer
      s.proxy.has_motion_holder s.helpers channel (peer_message peer message) (refl, refl) free v
Step-Follows (stop_step s channel) v =
    stop-Follows s.proxy.active_signaling_outbound s.proxy.active_peer_id s.proxy.has_motion_holder
      s.helpers channel v
Step-Follows (message_step s channel message) v = (
  message_log s.proxy.active_signaling_outbound s.proxy.active_peer_id s.proxy.has_motion_holder
      s.helpers channel message (is_on s.helpers channel) refl v,
  refl,
  v,
)
