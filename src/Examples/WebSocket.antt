-- ===== src/Examples/WebSocket.antt =====
-- A handler with one open connection and two callbacks.
use ur_webif.Base.{
  ℕ, ◌+◌, true, false, ◌||◌, none, [], ◌∷◌, ◌++◌, codes, lookup, get, ltb, length, ◌≡◌, refl, arith,
}
use ur_webif.Run.{returns, blocked, IsBlocked, Ends, state_after}
use ur_webif.Json.{done}
use ur_webif.WebSocket.State.{
  WebSocketHandler, WebSocketEvent, CallbackRegistration, EventFilter, IsIdle, free, low, heartbeat,
  system_context, success,
}
use ur_webif.WebSocket.Events.Queue.{trigger_all, keep_last, trigger_all-keep_last}
use ur_webif.WebSocket.Connections.{
  Peer, text, send_message, on_open, on_close, on_message, on_validate,
}
use ur_webif.WebSocket.Connections.Hangs.{stuck_sending, send_message-hangs}
use ur_webif.WebSocket.Connections.Limit.{on_validate-limit}
use ur_webif.WebSocket.Connections.Consistent.{Consistent}
use ur_webif.WebSocket.Server.{handle, opens, sends, here, after, Good, Reachable-Good}
use ur_webif.WebSocket.Callbacks.{process_event}
use ur_webif.WebSocket.Callbacks.Rounds.{answered, count_passing, process_event-turns}

abbrev any_event : EventFilter
any_event = record {
  event_types = [];
  connection_ids = [];
  custom_filter = none;
  min_priority = low;
  max_age = 3600000000000;
}

abbrev counting : CallbackRegistration
counting = record {
  callback_id = codes "callback_1";
  filter = any_event;
  callback = λ event. done success;
  is_active = true;
  registered_at = 0;
  execution_count = 4;
}

-- Connection 1 with handle 7; two events fit into the queue.
abbrev handler : WebSocketHandler
handler = record {
  next_connection_id = 2;
  connections = (1, 7) ∷ [];
  connection_ids = (7, 1) ∷ [];
  connection_info =
      (
        1,
        record {
          connection_id = 1;
          remote_endpoint = codes "10.0.0.5";
          user_agent = [];
          connected_at = 0;
          last_activity = 0;
        },
      )
      ∷ [];
  event_queue = [];
  event_processing_active = true;
  max_event_queue_size = 2;
  event_counter = 1;
  callback_registry = (codes "callback_1", counting) ∷ [];
  callback_id_counter = 2;
  statistics = record {
    total_connections = 1;
    active_connections = 1;
    messages_sent = 0;
    messages_received = 0;
    events_processed = 0;
    callbacks_executed = 0;
  };
  authentication_required = true;
  connection_limit = 1;
  connections_hold = free;
  statistics_held = false;
  queue_held = false;
  registry_held = false;
}

abbrev handler_idle : IsIdle handler
handler_idle = record { connections_free = refl; statistics_free = refl; queue_free = refl }

handler-Consistent : Consistent handler
unfolding get
handler-Consistent = record {
  table = (refl, tt);
  below = λ id hdl h. ground (arith, h);
  there = λ id hdl h. ground (arith, h);
  back = λ hdl id h. ground (arith, h);
  info = λ id. ground arith;
  active = refl;
  registry_free = refl;
}

abbrev peer : Peer
peer = record { remote_endpoint = codes "10.0.0.6"; user_agent = [] }

abbrev event : ℕ → WebSocketEvent
event n = record {
  type = heartbeat;
  priority = low;
  timestamp = n;
  context = system_context (codes "test") [];
  event_id = [];
}

send_message-hangs_example :
    (send_message (λ hdl message. true) 1 (codes "hello") 50 handler
      ≡ blocked (stuck_sending handler))
    × IsBlocked (on_open 8 peer 60 (stuck_sending handler))
    × IsBlocked (on_close 7 (codes "bye") 60 (stuck_sending handler))
unfolding get
send_message-hangs_example =
    send_message-hangs (λ hdl message. true) 1 7 (codes "hello") 50 handler handler_idle refl refl 8
      7 peer (codes "bye") 60

on_validate-limit_example :
    on_validate handler
    ≡ returns
        (handler.authentication_required
          || ltb (length handler.connections) handler.connection_limit)
        handler
on_validate-limit_example = on_validate-limit handler handler_idle

trigger_all-keep_last_example :
    trigger_all (event 1 ∷ event 2 ∷ event 3 ∷ []) handler
    ≡ returns tt
        (record handler { event_queue = keep_last 2 ([] ++ event 1 ∷ event 2 ∷ event 3 ∷ []) })
trigger_all-keep_last_example =
    trigger_all-keep_last (event 1 ∷ event 2 ∷ event 3 ∷ []) handler handler_idle refl (omega arith)
      (omega arith)

-- The handler after a message of its connection.
abbrev messaged : WebSocketHandler
messaged = state_after (handle (sends 7 text (codes "hi")) 20 handler)

Reachable-Good_example :
    Good messaged × Ends (handle (opens 9 peer) 90 messaged) (λ _ u. Good u) (λ _ _. ⊥)
unfolding on_message get
Reachable-Good_example =
    Reachable-Good handler messaged (opens 9 peer) 90
      (record { idle = handler_idle; consistent = handler-Consistent })
      (after (sends 7 text (codes "hi")) 20 here tt refl) (refl, omega arith)

process_event-turns_example :
    (t : WebSocketHandler) × (process_event (event 5) 10 handler ≡ returns tt t)
    × (lookup (codes "callback_1") t.callback_registry
        ≡ answered 10 (event 5) (lookup (codes "callback_1") handler.callback_registry))
    × (t.statistics.events_processed ≡ handler.statistics.events_processed + 1)
    × (t.statistics.callbacks_executed
        ≡ handler.statistics.callbacks_executed
          + count_passing 10 (event 5) handler.callback_registry)
unfolding lookup
process_event-turns_example =
    process_event-turns (event 5) 10 (codes "callback_1") handler handler_idle refl (refl, tt)
