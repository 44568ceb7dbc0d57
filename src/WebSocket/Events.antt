-- ===== src/WebSocket/Events.antt =====
-- src/websocket_handler.cpp: triggerEvent, triggerConnectionEvent, triggerMessageEvent,
-- triggerSystemEvent, generateEventId and the settings of the event queue.
pub mod Idle
pub mod Queue
use ur_webif.Base.{
  ℕ, ◌+◌, Bool, true, false, Option, none, some, List, [], ◌∷◌, ◌++◌, Bytes, codes, Assoc,
  to_string, get, leb, length, drop, if◌then◌else◌,
}
use ur_webif.Run.{Call, ◌>>=◌, ◌>>◌, pure, gets, modify, with_lock}
use ur_webif.WebSocket.State.{
  EventType, EventPriority, high, normal, low, ConnectionInfo, Context, connection_context,
  message_context, system_context, WebSocketEvent, WebSocketHandler, event_queue_mutex,
}
use ur_webif.WebSocket.Locks.{with_shared}

-- The queue with one event more. `pop` of an empty queue, at a maximum of 0, is undefined in C++.
abbrev pub pushed : WebSocketEvent → WebSocketHandler → WebSocketHandler
pushed event s = record s {
  event_queue =
      (if leb s.max_event_queue_size (length s.event_queue)
        then drop 1 s.event_queue
        else s.event_queue)
      ++ event ∷ [];
}

unfoldable pub trigger_event : WebSocketEvent → Call WebSocketHandler (Unit {0})
trigger_event event = do
  active ← gets λ s. s.event_processing_active
  if active then with_lock event_queue_mutex (modify (pushed event)) else pure tt

unfoldable pub generate_event_id : Call WebSocketHandler Bytes
generate_event_id = do
  n ← gets λ s. s.event_counter
  modify λ s. record s { event_counter = n + 1 }
  pure (codes "event_" ++ to_string n)

-- The information about a connection, or one with nothing but its number.
abbrev pub info_or : ℕ → Option ConnectionInfo → ConnectionInfo
info_or id (some info) = info
info_or id none = record {
  connection_id = id;
  remote_endpoint = [];
  user_agent = [];
  connected_at = 0;
  last_activity = 0;
}

unfoldable pub trigger_connection_event :
    EventType → ℕ → Bytes → ℕ → Call WebSocketHandler (Unit {0})
unfolding generate_event_id trigger_event
trigger_connection_event type id reason now = do
  event_id ← generate_event_id
  context ← with_shared (
      gets λ s.
        connection_context (info_or id (get id s.connection_info)) (get id s.connections) reason)
  trigger_event (record {
    type = type;
    priority = high;
    timestamp = now;
    context = context;
    event_id = event_id;
  })

unfoldable pub trigger_message_event : EventType → ℕ → Bytes → ℕ → Call WebSocketHandler (Unit {0})
unfolding generate_event_id trigger_event
trigger_message_event type id message now = do
  event_id ← generate_event_id
  context ← with_shared (gets λ s. message_context (info_or id (get id s.connection_info)) message)
  trigger_event (record {
    type = type;
    priority = normal;
    timestamp = now;
    context = context;
    event_id = event_id;
  })

unfoldable pub trigger_system_event :
    EventType → Bytes → Assoc Bytes → ℕ → Call WebSocketHandler (Unit {0})
unfolding generate_event_id trigger_event
trigger_system_event type component values now = do
  event_id ← generate_event_id
  trigger_event (record {
    type = type;
    priority = low;
    timestamp = now;
    context = system_context component values;
    event_id = event_id;
  })

unfoldable pub pause_event_processing : Call WebSocketHandler (Unit {0})
pause_event_processing = modify λ s. record s { event_processing_active = false }

unfoldable pub resume_event_processing : Call WebSocketHandler (Unit {0})
resume_event_processing = modify λ s. record s { event_processing_active = true }

unfoldable pub get_event_queue_size : Call WebSocketHandler ℕ
get_event_queue_size = with_lock event_queue_mutex (gets λ s. length s.event_queue)

unfoldable pub clear_event_queue : Call WebSocketHandler (Unit {0})
clear_event_queue = with_lock event_queue_mutex (modify λ s. record s { event_queue = [] })

unfoldable pub set_max_event_queue_size : ℕ → Call WebSocketHandler (Unit {0})
set_max_event_queue_size max_size = modify λ s. record s { max_event_queue_size = max_size }
