-- ===== src/WebSocket/Locks.antt =====
-- `std::shared_lock` and `std::unique_lock` on `connections_mutex_` of websocket_handler.cpp.
use ur_webif.Base.{suc}
use ur_webif.Run.{Run, Call, returns, throws, blocked}
use ur_webif.WebSocket.State.{WebSocketHandler, Hold, free, shared, exclusive}

abbrev held_as : Hold → WebSocketHandler → WebSocketHandler
held_as h s = record s { connections_hold = h }

abbrev pub release : {A : Type 0} → Hold → Run WebSocketHandler A → Run WebSocketHandler A
release h (returns a t) = returns a (held_as h t)
release h (throws e t) = throws e (held_as h t)
release h (blocked t) = blocked t

-- A reader is let in beside other readers, also beside its own thread, and waits for a writer.
abbrev pub with_shared : {A : Type 0} → Call WebSocketHandler A → Call WebSocketHandler A
with_shared body s = elim s.connections_hold [
  | free ↦ release free (body (held_as (shared 1) s))
  | shared n ↦ release (shared n) (body (held_as (shared (suc n)) s))
  | exclusive ↦ blocked s
]

-- A writer waits for every reader, also for its own thread.
abbrev pub with_unique : {A : Type 0} → Call WebSocketHandler A → Call WebSocketHandler A
with_unique body s = elim s.connections_hold [
  | free ↦ release free (body (held_as exclusive s))
  | shared n ↦ blocked s
  | exclusive ↦ blocked s
]
