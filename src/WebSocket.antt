-- ===== src/WebSocket.antt =====
-- src/websocket_handler.cpp and include/websocket_handler.h.
pub mod State
pub mod Locks
pub mod Events
pub mod Connections
pub mod Server
pub mod Callbacks
