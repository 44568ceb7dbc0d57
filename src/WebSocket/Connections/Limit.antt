-- ===== src/WebSocket/Connections/Limit.antt =====
-- The limit for the number of connections.
use ur_webif.Base.{◌||◌, ltb, length, ◌≡◌, arith}
use ur_webif.Run.{returns}
use ur_webif.WebSocket.State.{WebSocketHandler, IsIdle}
use ur_webif.WebSocket.Connections.{on_validate, get_active_connection_count}

-- With no thread inside: a new connection is let in when there are fewer than the limit, but where
-- authentication is required always, however many there are. Nothing changes.
pub on_validate-limit :
    (s : WebSocketHandler)
    → IsIdle s
    → on_validate s
      ≡ returns (s.authentication_required || ltb (length s.connections) s.connection_limit) s
unfolding on_validate get_active_connection_count
on_validate-limit s idle = ground (arith, idle.connections_free)
