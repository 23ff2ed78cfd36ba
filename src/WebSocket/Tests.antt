-- ===== src/WebSocket/Tests.antt =====
-- Runs of the web socket server, with one handler for the path "/rws/ws".
use rpi_webrtc_streamer.Base.{◌≡◌, refl, true, false, some, List, [], ◌∷◌, ◌++◌, Text, codes}
use rpi_webrtc_streamer.WebSocket.Handler.{
  single_instance, multiple_instance, new_container, WsInternalHandlerConfig,
  create_handler_runtime,
}
use rpi_webrtc_streamer.WebSocket.Handler.Queues.{
  waiting, send_call, write_call, QueueCall, run_queues, sent_to, written_to, run_queues-Ordered,
}

abbrev ws_path : Text
ws_path = codes "/rws/ws"

abbrev two_sockets : WsInternalHandlerConfig
two_sockets = record {
  path = ws_path;
  handler_type = single_instance;
  handler = 1;
  handler_runtime = new_container 7 70 ∷ new_container 8 80 ∷ [];
}

abbrev calls : List QueueCall
calls =
    send_call 7 (b'a' ∷ [])
    ∷ send_call 8 (b'x' ∷ [])
    ∷ send_call 7 (b'b' ∷ [])
    ∷ write_call 7
    ∷ write_call 8
    ∷ []

run_queues-Ordered_example :
    (left : List Text) × (waiting 7 (run_queues calls two_sockets).1 ≡ some left)
    × ([] ++ sent_to 7 calls ≡ written_to 7 (run_queues calls two_sockets).0 ++ left)
run_queues-Ordered_example = run_queues-Ordered calls two_sockets 7 [] refl

-- The type that is documented to allow one socket allows two, and the other one refuses the second.
single_allows_two : (create_handler_runtime 9 90 two_sockets).0 ≡ true
unfolding create_handler_runtime
single_allows_two = refl

multiple_refuses :
    (create_handler_runtime 9 90 (record two_sockets { handler_type = multiple_instance })).0
    ≡ false
unfolding create_handler_runtime
multiple_refuses = refl
