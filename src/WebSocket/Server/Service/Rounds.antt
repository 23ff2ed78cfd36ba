-- ===== src/WebSocket/Server/Service/Rounds.antt =====
-- What the rounds of the service loop, `RunLoop` of src/websocket_server.cc, write to a socket.
use rpi_webrtc_streamer.Base.{
  ℕ, suc, ◌≡◌, Bool, true, false, some, List, [], ◌∷◌, map, take, drop, Text,
}
use rpi_webrtc_streamer.WebSocket.Handler.{WsInternalHandlerConfig, Call, write_text}
use rpi_webrtc_streamer.WebSocket.Handler.Queues.{waiting}
use rpi_webrtc_streamer.WebSocket.Server.Service.{Service, service_rounds}

-- The additional callbacks among some rounds.
abbrev pub additions : List Bool → ℕ
additions [] = 0
additions (true ∷ rest) = suc (additions rest)
additions (false ∷ rest) = additions rest

abbrev writes : ℕ → List Text → List Call
writes wsi ms = map (write_text wsi) ms

-- What some rounds do from the service `s`, where `q` waits for the socket: `n` messages are written.
abbrev Rounds : Text → ℕ → ℕ → ℕ → List Text → List Bool → Service → Type 0
Rounds uri_path sockid wsi n q bs s =
    (h : WsInternalHandlerConfig) × (requested : ℕ → Bool) × (service_rounds uri_path sockid wsi bs
        s
      ≡ (writes wsi (take n q), record { handlers = h ∷ []; requested = requested }))
    × (waiting sockid h ≡ some (drop n q))
    × (requested wsi ≡ false)
