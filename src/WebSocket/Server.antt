-- ===== src/WebSocket/Server.antt =====
-- The registry of handlers of LibWebSocketServer, src/websocket_server.cc, and the callback of
-- src/websocket_server_callback.cc.
pub mod Service
use rpi_webrtc_streamer.Base.{
  ℕ, ◌+◌, ◌-◌, Bool, true, false, not, ◌&&◌, ◌||◌, Option, none, some, List, [], ◌∷◌, ◌++◌, ltb,
  ◌==◌, if◌then◌else◌, length, Text, codes, same_text,
}
use rpi_webrtc_streamer.WebSocket.Handler.{
  WebSocketHandlerType, WsInternalHandlerConfig, Call, callback_on_writable, close_reason,
  write_text, lws_close_status_normal, create_handler_runtime, get_wsi_from_handler_runtime,
  on_connect, on_disconnect, on_message, queue_message, dequeue_message, close_handler,
}

abbrev pub Handlers : Type 0
Handlers = List WsInternalHandlerConfig

unfoldable pub get_websocket_handler : Text → Handlers → Option WsInternalHandlerConfig
get_websocket_handler path [] = none
get_websocket_handler path (h ∷ hs) =
    if same_text h.path path then some h else get_websocket_handler path hs

unfoldable pub is_valid_ws_path : Text → Handlers → Bool
unfolding get_websocket_handler
is_valid_ws_path path hs = elim (get_websocket_handler path hs) [ none ↦ false | some h ↦ true ]

-- The handler that GetWebsocketHandler points to, changed.
abbrev pub set_handler : Text → WsInternalHandlerConfig → Handlers → Handlers
set_handler path h' [] = []
set_handler path h' (h ∷ hs) = if same_text h.path path then h' ∷ hs else h ∷ set_handler path h' hs

unfoldable pub add_web_socket_handler : Text → WebSocketHandlerType → ℕ → Handlers → Handlers
unfolding is_valid_ws_path
add_web_socket_handler path handler_type handler hs =
    if is_valid_ws_path path hs
    then hs
    else hs
      ++ (record {
        path = path;
        handler_type = handler_type;
        handler = handler;
        handler_runtime = [];
      }
          ∷ [])

-- `none` as a connection is a null pointer.
unfoldable pub send_message : ℕ → Text → Handlers → List (Option ℕ) × Handlers
unfolding queue_message get_wsi_from_handler_runtime
send_message sockid message [] = ([], [])
send_message sockid message (h ∷ hs) =
    let (queued, h') = queue_message sockid message h in
    let (calls, hs') = send_message sockid message hs in
    if queued then (get_wsi_from_handler_runtime sockid h' ∷ [], h' ∷ hs) else (calls, h' ∷ hs')

-- The loop returns after the first handler, whether it has the socket or not.
unfoldable pub close_socket : ℕ → ℕ → Text → Handlers → List Call × Handlers
unfolding close_handler
close_socket sockid reason_code message [] = ([], [])
close_socket sockid reason_code message (h ∷ hs) =
    let (found, calls, h') = close_handler sockid reason_code message h in (calls, h' ∷ hs)

-- The reasons of CallbackLibWebsockets; a result is its return value, where it is not that of
-- lws_callback_http_dummy.
unfoldable pub callback_established : Text → ℕ → ℕ → Handlers → List Call × Handlers
unfolding get_websocket_handler create_handler_runtime on_connect
callback_established uri_path sockid wsi hs = elim (get_websocket_handler uri_path hs) [
  | none ↦ ([], hs)
  | some h ↦
      let h' = (create_handler_runtime sockid wsi h).1 in
      (on_connect sockid h', set_handler uri_path h' hs)
]

unfoldable pub callback_closed : Text → ℕ → Handlers → List Call × Handlers
unfolding get_websocket_handler on_disconnect
callback_closed uri_path sockid hs = elim (get_websocket_handler uri_path hs) [
  | none ↦ ([], hs)
  | some h ↦ let (calls, h') = on_disconnect sockid h in (calls, set_handler uri_path h' hs)
]

-- `true` disconnects the session.
unfoldable pub callback_receive : Bool → Text → ℕ → ℕ → Text → Handlers → Bool × List Call
unfolding get_websocket_handler on_message
callback_receive answer uri_path sockid wsi message hs =
    if length message == 0 then (false, []) else elim (get_websocket_handler uri_path hs) [
      | none ↦ (false, [])
      | some h ↦
          let (go_on, calls) = on_message answer sockid message h in
          if go_on
          then (false, calls)
          else (true, calls ++ (close_reason wsi lws_close_status_normal [] ∷ []))
    ]

-- `write_ok` tells whether lws_write returns no error.
unfoldable pub callback_writeable : Bool → Text → ℕ → ℕ → Handlers → Bool × List Call × Handlers
unfolding get_websocket_handler dequeue_message
callback_writeable write_ok uri_path sockid wsi hs = elim (get_websocket_handler uri_path hs) [
  | none ↦ (false, [], hs)
  | some h ↦
      let (message, h') = dequeue_message sockid h in
      elim message [
        | none ↦ (false, [], set_handler uri_path h' hs)
        | some m ↦ (not write_ok, write_text wsi m ∷ [], set_handler uri_path h' hs)
      ]
]

abbrev pub max_uri_path : ℕ
max_uri_path = 128

abbrev pub lws_close_status_abnormal_close : ℕ
lws_close_status_abnormal_close = 1006

abbrev pub lws_close_status_policy_violation : ℕ
lws_close_status_policy_violation = 1008

abbrev pub reason_uri_too_long : Text
reason_uri_too_long = codes "URI is too long"

abbrev pub reason_uri_not_exist : Text
reason_uri_not_exist = codes "URI does not exist"

-- The check of the path of a new connection; `true` rejects it.
unfoldable pub callback_filter : Text → ℕ → Handlers → Bool × List Call
unfolding is_valid_ws_path
callback_filter uri wsi hs =
    if length uri == 0 || ltb (max_uri_path - 1) (length uri)
    then (true, close_reason wsi lws_close_status_abnormal_close reason_uri_too_long ∷ [])
    else (if is_valid_ws_path uri hs
        then (false, [])
        else (true, close_reason wsi lws_close_status_policy_violation reason_uri_not_exist ∷ []))
