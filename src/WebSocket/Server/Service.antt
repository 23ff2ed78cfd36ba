-- ===== src/WebSocket/Server/Service.antt =====
-- The server with the requests for writable callbacks that libwebsockets keeps: one for each
-- connection, however often lws_callback_on_writable is called before the callback comes. The library
-- may also call back when nothing was requested, as it documents, and the server sets
-- `ws_ping_pong_interval`.
pub mod Rounds
use rpi_webrtc_streamer.Base.{
  ℕ, ◌≡◌, refl, sym, ap, subst, ◌∙◌, inl, inr, Bool, true, false, Option, none, some, List, [], ◌∷◌,
  ◌++◌, arith, if◌then◌else◌, Option-cases, ◌||◌, update, update_self, Text,
}
use mathlib.Core.List.{append_assoc, append-nil}
use rpi_webrtc_streamer.WebSocket.Handler.{
  WsInternalHandlerConfig, Call, find_socket, get_wsi_from_handler_runtime, queue_message,
}
use rpi_webrtc_streamer.WebSocket.Handler.Queues.{
  waiting, find_socket-change_socket, waiting-queue_message,
}
use rpi_webrtc_streamer.WebSocket.Server.{Handlers, send_message, callback_writeable}

pub record Service : Type 0 where
  pub handlers : Handlers
  pub requested : ℕ → Bool

abbrev pub request : List (Option ℕ) → (ℕ → Bool) → ℕ → Bool
request [] requested = requested
request (none ∷ ws) requested = request ws requested
request (some w ∷ ws) requested = request ws (update requested w true)

unfoldable pub service_send : ℕ → Text → Service → Service
unfolding send_message
service_send sockid message s =
    let (ws, hs) = send_message sockid message s.handlers in
    record { handlers = hs; requested = request ws s.requested }

unfoldable pub service_sends : ℕ → List Text → Service → Service
unfolding service_send
service_sends sockid [] s = s
service_sends sockid (m ∷ ms) s = service_sends sockid ms (service_send sockid m s)

-- A round of lws_service, for the connection `wsi` of the socket: the writable callback comes if it
-- was requested or if the library makes an additional one.
unfoldable pub service_round : Text → ℕ → ℕ → Bool → Service → List Call × Service
unfolding callback_writeable
service_round uri_path sockid wsi additional s =
    if s.requested wsi || additional
    then (let (closes, calls, hs) = callback_writeable true uri_path sockid wsi s.handlers in
        (calls, record { handlers = hs; requested = update s.requested wsi false }))
    else ([], s)

unfoldable pub service_rounds : Text → ℕ → ℕ → List Bool → Service → List Call × Service
unfolding service_round
service_rounds uri_path sockid wsi [] s = ([], s)
service_rounds uri_path sockid wsi (additional ∷ rest) s =
    let (calls, s') = service_round uri_path sockid wsi additional s in
    let (more, t) = service_rounds uri_path sockid wsi rest s' in (calls ++ more, t)

-- A socket that is connected, with its connection and its messages.
abbrev pub Connected : ℕ → ℕ → List Text → WsInternalHandlerConfig → Type 0
Connected sockid wsi q h =
    (waiting sockid h ≡ some q) × (get_wsi_from_handler_runtime sockid h ≡ some wsi)

pub queue_message-Connected :
    (sockid wsi : ℕ) (q : List Text) (m : Text) (h : WsInternalHandlerConfig)
    → Connected sockid wsi q h
    → ((queue_message sockid m h).0 ≡ true)
      × Connected sockid wsi (q ++ (m ∷ [])) (queue_message sockid m h).1
      × ((queue_message sockid m h).1.path ≡ h.path)
unfolding queue_message get_wsi_from_handler_runtime
queue_message-Connected sockid wsi q m h (waits, has_wsi) =
    elim (Option-cases (find_socket sockid h.handler_runtime)) [
      | inl e ↦ absurd (ground (arith, waits, e))
      | inr (c, e) ↦ (
        ground arith,
        (
          ground (arith, waiting-queue_message sockid sockid m h),
          ground (
            arith,
            find_socket-change_socket
                (λ d. record d { pending_message = d.pending_message ++ (m ∷ []) }) sockid sockid
                h.handler_runtime (λ c. refl),
          ),
        ),
        ground arith,
      )
    ]

pub service_send_lem :
    (sockid wsi : ℕ) (q : List Text) (m : Text) (h : WsInternalHandlerConfig) (requested : ℕ → Bool)
    → Connected sockid wsi q h
    → service_send sockid m (record { handlers = h ∷ []; requested = requested }) ≡ record {
      handlers = (queue_message sockid m h).1 ∷ [];
      requested = update requested wsi true;
    }
unfolding service_send send_message
service_send_lem sockid wsi q m h requested c =
    let (queued, (_, has_wsi), _) = queue_message-Connected sockid wsi q m h c in
    ground (arith, queued, has_wsi)

pub service_sends-Connected :
    (sockid wsi : ℕ) (ms q : List Text) (h : WsInternalHandlerConfig) (requested : ℕ → Bool)
    → Connected sockid wsi q h
    → requested wsi ≡ true
    → (h' : WsInternalHandlerConfig) × (requested' : ℕ → Bool) × (service_sends sockid ms
          (record { handlers = h ∷ []; requested = requested })
        ≡ record { handlers = h' ∷ []; requested = requested' })
      × Connected sockid wsi (q ++ ms) h'
      × (h'.path ≡ h.path)
      × (requested' wsi ≡ true)
unfolding service_sends
service_sends-Connected sockid wsi [] q h requested c on =
    (h, requested, refl, subst (λ t. Connected sockid wsi t h) (sym (append-nil q)) c, refl, on)
service_sends-Connected sockid wsi (m ∷ ms) q h requested c on =
    let (_, c', path) = queue_message-Connected sockid wsi q m h c in
    let (h', requested', sent, c'', path', on') =
      service_sends-Connected sockid wsi ms (q ++ (m ∷ [])) (queue_message sockid m h).1
        (update requested wsi true) c' (update_self requested wsi true) in
    (
      h',
      requested',
      ap (service_sends sockid ms) (service_send_lem sockid wsi q m h requested c) ∙ sent,
      subst (λ t. Connected sockid wsi t h') (append_assoc q (m ∷ []) ms) c'',
      path' ∙ path,
      on',
    )
