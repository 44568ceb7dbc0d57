-- ===== src/WebSocket/Events/Idle.antt =====
-- Events that are triggered while no thread is inside a method.
use ur_webif.Base.{ℕ, ◌+◌, Bool, true, false, Bytes, ◌≡◌, refl, if◌then◌else◌, List, Assoc}
use ur_webif.Run.{Run, returns, modify, pure, with_lock}
use ur_webif.WebSocket.State.{
  EventType, WebSocketEvent, WebSocketHandler, IsIdle, free, event_queue_mutex,
}
use ur_webif.WebSocket.Events.{
  pushed, trigger_event, generate_event_id, trigger_connection_event, trigger_message_event,
  trigger_system_event,
}

-- The handler with free mutexes.
abbrev pub at_rest : WebSocketHandler → WebSocketHandler
at_rest s = record s { connections_hold = free; statistics_held = false; queue_held = false }

pub at_rest-idle : (s : WebSocketHandler) → IsIdle s → s ≡ at_rest s
at_rest-idle s h = λ i. record s {
  connections_hold = h.connections_free i;
  statistics_held = h.statistics_free i;
  queue_held = h.queue_free i;
}

-- An event is queued while the events are processed.
abbrev pub queued : WebSocketEvent → WebSocketHandler → WebSocketHandler
queued event s = record s {
  event_queue = if s.event_processing_active then (pushed event s).event_queue else s.event_queue;
}

pub trigger_event-at_rest :
    (event : WebSocketEvent) (s : WebSocketHandler)
    → trigger_event event (at_rest s) ≡ returns tt (at_rest (queued event s))
unfolding trigger_event
trigger_event-at_rest event s = go s.event_processing_active
  where
    go :
        (active : Bool)
        → (if active then with_lock event_queue_mutex (modify (pushed event)) else pure tt)
            (at_rest s)
          ≡ returns tt (
              at_rest (record s {
                event_queue = if active then (pushed event s).event_queue else s.event_queue;
              }))
    go true = refl
    go false = refl

-- Every trigger leaves all but the queue and the counter of the events.
pub record Calls (s : WebSocketHandler) (r : Run WebSocketHandler (Unit {0})) : Type 0 where
  pub queue_after : List WebSocketEvent
  pub counter_after : ℕ
  pub ran :
      r
      ≡ returns tt (at_rest (record s { event_queue = queue_after; event_counter = counter_after }))

pub trigger_connection_event-Calls :
    (type : EventType) (id : ℕ) (reason : Bytes) (now : ℕ) (s : WebSocketHandler)
    → Calls s (trigger_connection_event type id reason now (at_rest s))
unfolding trigger_connection_event generate_event_id
trigger_connection_event-Calls type id reason now s = record {
  queue_after = _;
  counter_after = _;
  ran = trigger_event-at_rest _ (record s { event_counter = s.event_counter + 1 });
}

pub trigger_message_event-Calls :
    (type : EventType) (id : ℕ) (message : Bytes) (now : ℕ) (s : WebSocketHandler)
    → Calls s (trigger_message_event type id message now (at_rest s))
unfolding trigger_message_event generate_event_id
trigger_message_event-Calls type id message now s = record {
  queue_after = _;
  counter_after = _;
  ran = trigger_event-at_rest _ (record s { event_counter = s.event_counter + 1 });
}

pub trigger_system_event-Calls :
    (type : EventType) (component : Bytes) (values : Assoc Bytes) (now : ℕ) (s : WebSocketHandler)
    → Calls s (trigger_system_event type component values now (at_rest s))
unfolding trigger_system_event generate_event_id
trigger_system_event-Calls type component values now s = record {
  queue_after = _;
  counter_after = _;
  ran = trigger_event-at_rest _ (record s { event_counter = s.event_counter + 1 });
}
