-- ===== src/WebSocket/Handler.antt =====
-- WSInternalHandlerConfig of src/websocket_server.cc: the sockets of a path, each with its queue of
-- messages. A handler and a connection of libwebsockets are named by numbers; what is called
-- outside is a list of calls, in order.
pub mod Queues
use rpi_webrtc_streamer.Base.{
  ℕ, ◌+◌, Bool, true, false, not, ◌&&◌, Option, none, some, List, [], ◌∷◌, ◌++◌, ltb, ◌==◌,
  if◌then◌else◌, length, Text,
}

pub data WebSocketHandlerType : Type 0 where
  single_instance : WebSocketHandlerType
  multiple_instance : WebSocketHandlerType

abbrev pub is_multiple : WebSocketHandlerType → Bool
is_multiple single_instance = false
is_multiple multiple_instance = true

pub record WsInstanceContainer : Type 0 where
  pub sockid : ℕ
  pub wsi : ℕ
  pub force_connection_drop : Bool
  pub drop_message : Text
  pub pending_message : List Text

pub record WsInternalHandlerConfig : Type 0 where
  pub path : Text
  pub handler_type : WebSocketHandlerType
  pub handler : ℕ
  pub handler_runtime : List WsInstanceContainer

pub data Call : Type 0 where
  handler_connect : ℕ → ℕ → Call
  handler_message : ℕ → ℕ → Text → Call
  handler_disconnect : ℕ → ℕ → Call
  handler_error : ℕ → ℕ → Text → Call
  callback_on_writable : ℕ → Call
  close_reason : ℕ → ℕ → Text → Call
  write_text : ℕ → Text → Call

abbrev pub lws_close_status_normal : ℕ
lws_close_status_normal = 1000

abbrev pub new_container : ℕ → ℕ → WsInstanceContainer
new_container sockid wsi = record {
  sockid = sockid;
  wsi = wsi;
  force_connection_drop = false;
  drop_message = [];
  pending_message = [];
}

-- The loops over handler_runtime_ that end at the socket.
abbrev pub find_socket : ℕ → List WsInstanceContainer → Option WsInstanceContainer
find_socket sockid [] = none
find_socket sockid (c ∷ cs) = if c.sockid == sockid then some c else find_socket sockid cs

-- The same loop, with a change of the container.
abbrev pub change_socket :
    (WsInstanceContainer → WsInstanceContainer)
    → ℕ
    → List WsInstanceContainer
    → List WsInstanceContainer
change_socket change sockid [] = []
change_socket change sockid (c ∷ cs) =
    if c.sockid == sockid then change c ∷ cs else c ∷ change_socket change sockid cs

abbrev pub erase_socket : ℕ → List WsInstanceContainer → List WsInstanceContainer
erase_socket sockid [] = []
erase_socket sockid (c ∷ cs) = if c.sockid == sockid then cs else c ∷ erase_socket sockid cs

unfoldable pub create_handler_runtime :
    ℕ → ℕ → WsInternalHandlerConfig → Bool × WsInternalHandlerConfig
create_handler_runtime sockid wsi h =
    if is_multiple h.handler_type && not (length h.handler_runtime == 0)
    then (false, h)
    else (true, record h { handler_runtime = h.handler_runtime ++ (new_container sockid wsi ∷ []) })

unfoldable pub get_wsi_from_handler_runtime : ℕ → WsInternalHandlerConfig → Option ℕ
get_wsi_from_handler_runtime sockid h = elim (find_socket sockid h.handler_runtime) [
  | none ↦ none
  | some c ↦ some c.wsi
]

unfoldable pub on_connect : ℕ → WsInternalHandlerConfig → List Call
on_connect sockid h = elim (find_socket sockid h.handler_runtime) [
  | none ↦ []
  | some c ↦ handler_connect h.handler sockid ∷ []
]

unfoldable pub on_disconnect : ℕ → WsInternalHandlerConfig → List Call × WsInternalHandlerConfig
on_disconnect sockid h = elim (find_socket sockid h.handler_runtime) [
  | none ↦ ([], h)
  | some c ↦ (
    handler_disconnect h.handler sockid ∷ [],
    record h { handler_runtime = erase_socket sockid h.handler_runtime },
  )
]

-- `answer` is what the handler's OnMessage returns.
unfoldable pub on_message : Bool → ℕ → Text → WsInternalHandlerConfig → Bool × List Call
on_message answer sockid message h = elim (find_socket sockid h.handler_runtime) [
  | none ↦ (false, [])
  | some c ↦ (answer, handler_message h.handler sockid message ∷ [])
]

-- This loop does not end at the socket.
abbrev pub error_calls : ℕ → ℕ → Text → List WsInstanceContainer → List Call
error_calls handler sockid errmsg [] = []
error_calls handler sockid errmsg (c ∷ cs) =
    (if c.sockid == sockid then handler_error handler sockid errmsg ∷ [] else [])
    ++ error_calls handler sockid errmsg cs

unfoldable pub on_error : ℕ → Text → WsInternalHandlerConfig → List Call
on_error sockid errmsg h = error_calls h.handler sockid errmsg h.handler_runtime

unfoldable pub queue_message : ℕ → Text → WsInternalHandlerConfig → Bool × WsInternalHandlerConfig
queue_message sockid message h = elim (find_socket sockid h.handler_runtime) [
  | none ↦ (false, h)
  | some c ↦ (
    true,
    record h {
      handler_runtime =
          change_socket (λ d. record d { pending_message = d.pending_message ++ (message ∷ []) })
            sockid h.handler_runtime;
    },
  )
]

unfoldable pub runtime_size : WsInternalHandlerConfig → ℕ
runtime_size h = length h.handler_runtime

unfoldable pub queue_size : ℕ → WsInternalHandlerConfig → ℕ
queue_size sockid h = elim (find_socket sockid h.handler_runtime) [
  | none ↦ 0
  | some c ↦ length c.pending_message
]

unfoldable pub has_pending_message : ℕ → WsInternalHandlerConfig → Bool
has_pending_message sockid h = elim (find_socket sockid h.handler_runtime) [
  | none ↦ false
  | some c ↦ ltb 0 (length c.pending_message)
]

unfoldable pub dequeue_message : ℕ → WsInternalHandlerConfig → Option Text × WsInternalHandlerConfig
dequeue_message sockid h = elim (find_socket sockid h.handler_runtime) [
  | none ↦ (none, h)
  | some c ↦ elim c.pending_message [
    | [] ↦ (none, h)
    | message ∷ rest ↦ (
      some message,
      record h {
        handler_runtime =
            change_socket (λ d. record d { pending_message = rest }) sockid h.handler_runtime;
      },
    )
  ]
]

unfoldable pub close_handler :
    ℕ → ℕ → Text → WsInternalHandlerConfig → Bool × List Call × WsInternalHandlerConfig
close_handler sockid reason_code message h = elim (find_socket sockid h.handler_runtime) [
  | none ↦ (false, [], h)
  | some c ↦ (
    true,
    close_reason c.wsi (if reason_code == 0 then lws_close_status_normal else reason_code) message
        ∷ [],
    record h {
      handler_runtime =
          change_socket (λ d. record d { force_connection_drop = true; drop_message = message })
            sockid h.handler_runtime;
    },
  )
]
