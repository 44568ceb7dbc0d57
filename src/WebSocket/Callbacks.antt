-- ===== src/WebSocket/Callbacks.antt =====
-- src/websocket_handler.cpp: the registry of the callbacks, matchesFilter, findMatchingCallbacks,
-- processEvent and one round of processEventQueue. The event counts and the average time of
-- updateStatistics, which performance metrics switch on, are left out.
pub mod Rounds
use ur_webif.Base.{
  ℕ, ◌+◌, ◌-◌, Bool, true, false, not, ◌&&◌, ◌||◌, Option, none, some, List, [], ◌∷◌, ◌++◌, Bytes,
  codes, Assoc, to_string, lookup, insert, erase, ◌==◌, ltb, length, any_of, if◌then◌else◌,
}
use ur_webif.Run.{Call, ◌>>=◌, ◌>>◌, pure, gets, modify, with_lock}
use ur_webif.Json.{Attempt, done, threw}
use ur_webif.WebSocket.State.{
  EventType, connection_opened, connection_closed, connection_failed, connection_timeout,
  connection_error, message_received, message_sent, message_failed, binary_message_received,
  http_upgrade_request, authentication_request, authorization_request, validation_request,
  data_validation, data_transformation, data_processing, data_persistence, server_started,
  server_stopped, health_check, heartbeat, ping_received, pong_received, custom_event,
  user_defined_event, EventPriority, critical, high, normal, low, Context, connection_context,
  message_context, request_context, data_context, system_context, WebSocketEvent, EventResult,
  EventFilter, CallbackRegistration, WebSocketHandler, callback_registry_mutex, statistics_mutex,
  event_queue_mutex,
}

-- The value of the enumerator.
abbrev pub type_number : EventType → ℕ
type_number connection_opened = 0
type_number connection_closed = 1
type_number connection_failed = 2
type_number connection_timeout = 3
type_number connection_error = 4
type_number message_received = 5
type_number message_sent = 6
type_number message_failed = 7
type_number binary_message_received = 8
type_number http_upgrade_request = 9
type_number authentication_request = 10
type_number authorization_request = 11
type_number validation_request = 12
type_number data_validation = 13
type_number data_transformation = 14
type_number data_processing = 15
type_number data_persistence = 16
type_number server_started = 17
type_number server_stopped = 18
type_number health_check = 19
type_number heartbeat = 20
type_number ping_received = 21
type_number pong_received = 22
type_number custom_event = 23
type_number user_defined_event = 24

abbrev pub priority_number : EventPriority → ℕ
priority_number critical = 0
priority_number high = 1
priority_number normal = 2
priority_number low = 3

-- Whether the set has the type.
abbrev pub has_type : EventType → List EventType → Bool
has_type type types = any_of (λ other. type_number other == type_number type) types

-- The connection of an event; that of a system event is -1 in the source.
abbrev pub connection_of : Context → Option ℕ
connection_of (connection_context info hdl reason) = some info.connection_id
connection_of (message_context info message) = some info.connection_id
connection_of (request_context info path) = some info.connection_id
connection_of (data_context info content) = some info.connection_id
connection_of (system_context component values) = none

abbrev misses : List ℕ → Option ℕ → Bool
misses [] id = false
misses (first ∷ more) none = false
misses (first ∷ more) (some id) = not (any_of (λ other. other == id) (first ∷ more))

abbrev fails_types : List EventType → EventType → Bool
fails_types [] type = false
fails_types (first ∷ more) type = not (has_type type (first ∷ more))

abbrev fails_custom : Option (WebSocketEvent → Bool) → WebSocketEvent → Bool
fails_custom none event = false
fails_custom (some custom_filter) event = not (custom_filter event)

unfoldable pub matches_filter : ℕ → WebSocketEvent → EventFilter → Bool
matches_filter now event filter =
    if fails_types filter.event_types event.type
    then false
    else if ltb (priority_number filter.min_priority) (priority_number event.priority)
    then false
    else if ltb filter.max_age (now - event.timestamp)
    then false
    else if misses filter.connection_ids (connection_of event.context)
    then false
    else if fails_custom filter.custom_filter event
    then false
    else true

-- The identifiers stand for the pointers to the registrations. The comparison of the sort says of
-- no two callbacks that one comes first, and so it is left out.
unfoldable pub find_matching_callbacks :
    ℕ → WebSocketEvent → Assoc CallbackRegistration → List Bytes
find_matching_callbacks now event [] = []
find_matching_callbacks now event ((id, registration) ∷ more) =
    if matches_filter now event registration.filter
    then id ∷ find_matching_callbacks now event more
    else find_matching_callbacks now event more

-- A registration after the turn of its callback.
abbrev pub executed : Attempt EventResult → CallbackRegistration → CallbackRegistration
executed (done result) registration = record registration {
  execution_count = registration.execution_count + 1;
}
executed (threw e) registration = registration

abbrev pub run_callback : WebSocketEvent → CallbackRegistration → CallbackRegistration
run_callback event registration =
    if registration.is_active
    then executed (registration.callback event) registration
    else registration

abbrev pub run_found :
    WebSocketEvent
    → Bytes
    → Option CallbackRegistration
    → Assoc CallbackRegistration
    → Assoc CallbackRegistration
run_found event id none registry = registry
run_found event id (some registration) registry =
    insert id (run_callback event registration) registry

unfoldable pub run_all :
    WebSocketEvent → List Bytes → Assoc CallbackRegistration → Assoc CallbackRegistration
run_all event [] registry = registry
run_all event (id ∷ ids) registry =
    run_all event ids (run_found event id (lookup id registry) registry)

unfoldable pub process_event : WebSocketEvent → ℕ → Call WebSocketHandler (Unit {0})
unfolding find_matching_callbacks run_all
process_event event now = do
  matching_callbacks ←
      with_lock callback_registry_mutex
        (gets λ s. find_matching_callbacks now event s.callback_registry)
  modify λ s. record s { callback_registry = run_all event matching_callbacks s.callback_registry }
  with_lock statistics_mutex (
      modify λ s. record s {
        statistics = record s.statistics {
          events_processed = s.statistics.events_processed + 1;
          callbacks_executed = s.statistics.callbacks_executed + length matching_callbacks;
        };
      })

-- What the first round of the loop takes out of the queue.
unfoldable pub take_event : List WebSocketEvent → Call WebSocketHandler (Option WebSocketEvent)
take_event [] = pure none
take_event (event ∷ events) = modify (λ s. record s { event_queue = events }) >> pure (some event)

abbrev pub process_taken : ℕ → Option WebSocketEvent → Call WebSocketHandler (Unit {0})
process_taken now none = pure tt
process_taken now (some event) = process_event event now

-- One round of the loop of `processEventQueue`, which does not wait: with an empty queue nothing
-- happens.
unfoldable pub process_next : ℕ → Call WebSocketHandler (Unit {0})
unfolding take_event process_event
process_next now = do
  active ← gets λ s. s.event_processing_active
  if active
      then (do
        event ← with_lock event_queue_mutex (gets (λ s. s.event_queue) >>= take_event)
        process_taken now event)
      else pure tt

unfoldable pub register_callback :
    EventFilter → (WebSocketEvent → Attempt EventResult) → ℕ → Call WebSocketHandler Bytes
register_callback filter callback now = do
  n ← gets λ s. s.callback_id_counter
  modify λ s. record s { callback_id_counter = n + 1 }
  let callback_id = codes "callback_" ++ to_string n
  let registration : CallbackRegistration = record {
    callback_id = callback_id;
    filter = filter;
    callback = callback;
    is_active = true;
    registered_at = now;
    execution_count = 0;
  }
  with_lock callback_registry_mutex (
      modify
        λ s. record s { callback_registry = insert callback_id registration s.callback_registry })
  pure callback_id

abbrev unregistered : Bytes → Option CallbackRegistration → Call WebSocketHandler Bool
unregistered id none = pure false
unregistered id (some registration) =
    modify (λ s. record s { callback_registry = erase id s.callback_registry }) >> pure true

unfoldable pub unregister_callback : Bytes → Call WebSocketHandler Bool
unregister_callback id =
    with_lock callback_registry_mutex
      (gets (λ s. lookup id s.callback_registry) >>= unregistered id)

unfoldable pub unregister_all_callbacks : Call WebSocketHandler (Unit {0})
unregister_all_callbacks =
    with_lock callback_registry_mutex (modify λ s. record s { callback_registry = [] })

abbrev with_active : Bool → Bytes → Option CallbackRegistration → Call WebSocketHandler (Unit {0})
with_active b id none = pure tt
with_active b id (some registration) = modify λ s. record s {
  callback_registry = insert id (record registration { is_active = b }) s.callback_registry;
}

unfoldable pub activate_callback : Bytes → Call WebSocketHandler (Unit {0})
activate_callback id =
    with_lock callback_registry_mutex
      (gets (λ s. lookup id s.callback_registry) >>= with_active true id)

unfoldable pub deactivate_callback : Bytes → Call WebSocketHandler (Unit {0})
deactivate_callback id =
    with_lock callback_registry_mutex
      (gets (λ s. lookup id s.callback_registry) >>= with_active false id)

-- The identifiers of the callbacks whose filters name the type.
unfoldable pub listed : EventType → Assoc CallbackRegistration → List Bytes
listed type [] = []
listed type ((id, registration) ∷ more) =
    if type_number type == type_number custom_event || has_type type registration.filter.event_types
    then id ∷ listed type more
    else listed type more

unfoldable pub get_registered_callbacks : EventType → Call WebSocketHandler (List Bytes)
unfolding listed
get_registered_callbacks type =
    with_lock callback_registry_mutex (gets λ s. listed type s.callback_registry)
