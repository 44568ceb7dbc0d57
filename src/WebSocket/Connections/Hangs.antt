-- ===== src/WebSocket/Connections/Hangs.antt =====
-- Sending to a connection: sendMessage holds the lock that updateConnectionActivity waits for.
use ur_webif.Base.{ℕ, ◌+◌, Bool, true, some, Bytes, ◌≡◌, arith, get}
use ur_webif.Run.{blocked, IsBlocked}
use ur_webif.WebSocket.State.{WebSocketHandler, IsIdle, shared}
use ur_webif.WebSocket.Connections.{
  Peer, send_message, deliver, update_connection_activity, on_open, on_close,
}

-- A handler whose thread is inside `sendMessage` for ever.
abbrev pub stuck_sending : WebSocketHandler → WebSocketHandler
stuck_sending s = record s {
  statistics = record s.statistics { messages_sent = s.statistics.messages_sent + 1 };
  connections_hold = shared 1;
  statistics_held = true;
}

-- With no thread inside: when the library has sent a message to an open connection, `sendMessage`
-- does not return. It holds a shared lock of `connections_mutex_`, for which the writer in
-- `updateConnectionActivity` waits, and the mutex of the statistics. From then on no connection can
-- be opened or closed.
pub send_message-hangs :
    (send : ℕ → Bytes → Bool) (id hdl : ℕ) (message : Bytes) (now : ℕ) (s : WebSocketHandler)
    → IsIdle s
    → get id s.connections ≡ some hdl
    → send hdl message ≡ true
    → (new old : ℕ) (peer : Peer) (reason : Bytes) (later : ℕ)
    → (send_message send id message now s ≡ blocked (stuck_sending s))
      × IsBlocked (on_open new peer later (stuck_sending s))
      × IsBlocked (on_close old reason later (stuck_sending s))
unfolding send_message deliver update_connection_activity on_open on_close
send_message-hangs send id hdl message now s idle found sent new old peer reason later =
    (ground (arith, idle.connections_free, idle.statistics_free, found, sent), tt, tt)
