-- ===== src/Signaling/Direct/Accepting.antt =====
-- Connections that come while a session is active.
use rpi_webrtc_streamer.Base.{
  ℕ, ◌≡◌, refl, ◌+◌, none, true, false, some, [], ◌∷◌, map, arith, update_self, ==_refl,
}
use rpi_webrtc_streamer.Signaling.{
  is_signaling_session_active, start_signaling_session, stop_signaling_session,
  start_streamer_signaling, stop_streamer_signaling,
}
use rpi_webrtc_streamer.Signaling.Direct.{
  DirectSocketServer, close_socket, session_effect, is_within, on_close, on_accept,
  force_connection_drop_valid_duration, directsocket_fake_peerid, empty_config,
}

-- The direct socket serves the connection `socket`, with the session of the proxy.
pub record Serves (channel socket : ℕ) (s : DirectSocketServer) : Type 0 where
  pub active : is_signaling_session_active channel s.signaling ≡ true
  pub holds : s.signaling.proxy.active_signaling_outbound ≡ some channel
  pub connected : s.direct_socket ≡ some socket

module _ (channel : ℕ) where
  first_rejected :
      (incoming now : ℕ) (s : DirectSocketServer)
      → is_signaling_session_active channel s.signaling ≡ true
      → is_within now s.last_reject_time_ms force_connection_drop_valid_duration ≡ false
      → on_accept channel incoming now s
        ≡ some (
          close_socket incoming ∷ [],
          record s { connection_reject_count = 0; last_reject_time_ms = now },
        )
  unfolding on_accept
  first_rejected incoming now s active late = ground arith

  drops :
      (incoming now socket : ℕ) (s : DirectSocketServer)
      → Serves channel socket s
      → is_within now s.last_reject_time_ms force_connection_drop_valid_duration ≡ true
      → on_accept channel incoming now s
        ≡ some (
          close_socket incoming
              ∷ (close_socket socket
                  ∷ map session_effect (stop_signaling_session channel s.signaling).0),
          record s {
            signaling = (stop_signaling_session channel s.signaling).1;
            connection_reject_count = s.connection_reject_count + 1;
            last_reject_time_ms = now;
          },
        )
  unfolding on_accept on_close
  drops incoming now socket s v soon = ground (arith, v.active, v.connected)

  -- The proxy is free after a stop.
  stopped :
      (socket : ℕ) (s : DirectSocketServer)
      → Serves channel socket s
      → let t = (stop_signaling_session channel s.signaling).1 in
        (is_signaling_session_active channel t ≡ false) × (t.proxy.active_signaling_outbound ≡ none)
  unfolding stop_signaling_session stop_streamer_signaling
  stopped socket s v =
      let own = ==_refl channel in
      let off =
        update_self s.signaling.helpers channel
          (record (s.signaling.helpers channel) { streamsession_active = false }) in
      (ground (arith, off), ground (arith, v.holds, own))

  accepts :
      (incoming now : ℕ) (s : DirectSocketServer)
      → is_signaling_session_active channel s.signaling ≡ false
      → s.signaling.proxy.active_signaling_outbound ≡ none
      → (t : DirectSocketServer) × (on_accept channel incoming now s
          ≡ some (
            map session_effect
                (start_signaling_session channel directsocket_fake_peerid empty_config
                  s.signaling).1,
            t,
          ))
        × Serves channel incoming t
  unfolding on_accept start_signaling_session start_streamer_signaling
  accepts incoming now s idle free =
      let on =
        update_self s.signaling.helpers channel
          (record { streamsession_active = true; peer_id = directsocket_fake_peerid }) in
      (
        record s {
          connection_reject_count = 0;
          socket_peer_id = directsocket_fake_peerid;
          direct_socket = some incoming;
          signaling =
              (start_signaling_session channel directsocket_fake_peerid empty_config s.signaling).2;
        },
        ground (arith, idle, free),
        record {
          active = ground (arith, free, on);
          holds = ground (arith, free);
          connected = refl;
        },
      )

  -- While a connection is served, and the last rejection is three seconds ago or more, a connection
  -- is rejected and the session goes on. If another one comes within three seconds, it is
  -- rejected too, but it ends the session and closes the socket that was served, at a count of one
  -- rejection, where the threshold is three. The third connection is then accepted, whenever it
  -- comes, and has the session.
  pub on_accept_takes_over :
      (first second third t₁ t₂ t₃ socket : ℕ) (s : DirectSocketServer)
      → Serves channel socket s
      → is_within t₁ s.last_reject_time_ms force_connection_drop_valid_duration ≡ false
      → is_within t₂ t₁ force_connection_drop_valid_duration ≡ true
      → (s₁ : DirectSocketServer) × (s₂ : DirectSocketServer) × (s₃ : DirectSocketServer)
        × (on_accept channel first t₁ s ≡ some (close_socket first ∷ [], s₁))
        × Serves channel socket s₁
        × (on_accept channel second t₂ s₁
            ≡ some (
              close_socket second
                  ∷ (close_socket socket
                      ∷ map session_effect (stop_signaling_session channel s.signaling).0),
              s₂,
            ))
        × (is_signaling_session_active channel s₂.signaling ≡ false)
        × (s₂.connection_reject_count ≡ 1)
        × (on_accept channel third t₃ s₂
            ≡ some (
              map session_effect
                  (start_signaling_session channel directsocket_fake_peerid empty_config
                    s₂.signaling).1,
              s₃,
            ))
        × Serves channel third s₃
  on_accept_takes_over first second third t₁ t₂ t₃ socket s v late soon =
      let s₁ : DirectSocketServer = record s {
        connection_reject_count = 0;
        last_reject_time_ms = t₁;
      } in
      let v₁ : Serves channel socket s₁ = record {
        active = v.active;
        holds = v.holds;
        connected = v.connected;
      } in
      let s₂ : DirectSocketServer = record s₁ {
        signaling = (stop_signaling_session channel s.signaling).1;
        connection_reject_count = 1;
        last_reject_time_ms = t₂;
      } in
      let (idle, free) = stopped socket s v in
      let (s₃, accepted, v₃) = accepts third t₃ s₂ idle free in
      (
        s₁,
        s₂,
        s₃,
        first_rejected first t₁ s v.active late,
        v₁,
        drops second t₂ socket s₁ v₁ soon,
        idle,
        refl,
        accepted,
        v₃,
      )
