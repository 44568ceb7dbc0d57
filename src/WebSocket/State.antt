-- ===== src/WebSocket/State.antt =====
-- include/websocket_handler.h: the types of the events and the members of WebSocketHandler.
-- A connection_hdl is a number, and a steady-clock time point a number of nanoseconds.
use ur_webif.Base.{ℕ, Bool, false, Option, List, Bytes, Assoc, Table, ◌≡◌}
use ur_webif.Run.{Mutex}
use ur_webif.Json.{Attempt}

pub data EventType : Type 0 where
  connection_opened connection_closed connection_failed connection_timeout : EventType
  connection_error message_received message_sent message_failed : EventType
  binary_message_received http_upgrade_request authentication_request : EventType
  authorization_request validation_request data_validation data_transformation : EventType
  data_processing data_persistence server_started server_stopped health_check : EventType
  heartbeat ping_received pong_received custom_event user_defined_event : EventType

-- From 0, the most urgent one.
pub data EventPriority : Type 0 where
  critical high normal low : EventPriority

-- `headers`, `metadata`, `is_authenticated` and `session_id` are left out: nothing here sets them
-- but setConnectionMetadata.
pub record ConnectionInfo : Type 0 where
  pub connection_id : ℕ
  pub remote_endpoint : Bytes
  pub user_agent : Bytes
  pub connected_at : ℕ
  pub last_activity : ℕ

-- What an event carries besides its type.
pub data Context : Type 0 where
  connection_context : ConnectionInfo → Option ℕ → Bytes → Context
  message_context : ConnectionInfo → Bytes → Context
  request_context : ConnectionInfo → Bytes → Context
  data_context : ConnectionInfo → Bytes → Context
  system_context : Bytes → Assoc Bytes → Context

pub record WebSocketEvent : Type 0 where
  pub type : EventType
  pub priority : EventPriority
  pub timestamp : ℕ
  pub context : Context
  pub event_id : Bytes

pub data EventResult : Type 0 where
  success failed retry ignore propagate : EventResult

-- A set is a list, and `custom_filter` may be missing.
pub record EventFilter : Type 0 where
  pub event_types : List EventType
  pub connection_ids : List ℕ
  pub custom_filter : Option (WebSocketEvent → Bool)
  pub min_priority : EventPriority
  pub max_age : ℕ

-- A callback gives a result or throws; what else it does is not part of the handler.
pub record CallbackRegistration : Type 0 where
  pub callback_id : Bytes
  pub filter : EventFilter
  pub callback : WebSocketEvent → Attempt EventResult
  pub is_active : Bool
  pub registered_at : ℕ
  pub execution_count : ℕ

pub record Statistics : Type 0 where
  pub total_connections : ℕ
  pub active_connections : ℕ
  pub messages_sent : ℕ
  pub messages_received : ℕ
  pub events_processed : ℕ
  pub callbacks_executed : ℕ

-- How `connections_mutex_`, a `std::shared_mutex`, is held.
pub data Hold : Type 0 where
  free : Hold
  shared : ℕ → Hold
  exclusive : Hold

-- `next_connection_id` holds the 32 bits of an `int`.
-- `event_counter` is the static counter of generateEventId. The last four fields are the mutexes.
pub record WebSocketHandler : Type 0 where
  pub next_connection_id : ℕ
  pub connections : Table ℕ
  pub connection_ids : Table ℕ
  pub connection_info : Table ConnectionInfo
  pub event_queue : List WebSocketEvent
  pub event_processing_active : Bool
  pub max_event_queue_size : ℕ
  pub event_counter : ℕ
  pub callback_registry : Assoc CallbackRegistration
  pub callback_id_counter : ℕ
  pub statistics : Statistics
  pub authentication_required : Bool
  pub connection_limit : ℕ
  pub connections_hold : Hold
  pub statistics_held : Bool
  pub queue_held : Bool
  pub registry_held : Bool

abbrev pub statistics_mutex : Mutex WebSocketHandler
statistics_mutex = record {
  is_held = λ s. s.statistics_held;
  set_held = λ b s. record s { statistics_held = b };
}

abbrev pub event_queue_mutex : Mutex WebSocketHandler
event_queue_mutex = record {
  is_held = λ s. s.queue_held;
  set_held = λ b s. record s { queue_held = b };
}

-- `callback_registry_mutex_`, which nothing takes twice, be it as a reader or as a writer.
abbrev pub callback_registry_mutex : Mutex WebSocketHandler
callback_registry_mutex = record {
  is_held = λ s. s.registry_held;
  set_held = λ b s. record s { registry_held = b };
}

-- No thread is inside a method.
pub record IsIdle (s : WebSocketHandler) : Type 0 where
  pub connections_free : s.connections_hold ≡ free
  pub statistics_free : s.statistics_held ≡ false
  pub queue_free : s.queue_held ≡ false
