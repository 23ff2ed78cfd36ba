-- ===== src/WebSocket.antt =====
-- The web socket server: src/websocket_server.cc and src/websocket_server_callback.cc.
pub mod Handler
pub mod Server
mod Tests
