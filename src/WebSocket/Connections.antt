-- ===== src/WebSocket/Connections.antt =====
-- src/websocket_handler.cpp: on_open, on_close, on_message, on_fail, on_validate, on_ping, on_pong,
-- on_pong_timeout, sendMessage, broadcastMessage and the queries of the connections.
pub mod Hangs
pub mod Consistent
pub mod Limit
use ur_webif.Base.{
  ◌%◌, ◌^◌, ℕ, ◌+◌, ◌-◌, Bool, true, false, Option, none, some, is_some, List, [], ◌∷◌, Bytes,
  codes, map, to_string, get, put, remove, leb, length, if◌then◌else◌,
}
use ur_webif.Run.{Call, ◌>>=◌, ◌>>◌, pure, gets, modify, with_lock}
use ur_webif.WebSocket.State.{
  EventType, connection_opened, connection_closed, connection_failed, connection_timeout,
  message_received, message_sent, message_failed, binary_message_received, ping_received,
  pong_received, ConnectionInfo, Statistics, WebSocketHandler, statistics_mutex,
}
use ur_webif.WebSocket.Locks.{with_shared, with_unique}
use ur_webif.WebSocket.Events.{
  trigger_connection_event, trigger_message_event, trigger_system_event,
}

-- What the library says of a peer, empty where it throws.
pub record Peer : Type 0 where
  pub remote_endpoint : Bytes
  pub user_agent : Bytes

abbrev pub create_connection_info : ℕ → Peer → ℕ → ConnectionInfo
create_connection_info id peer now = record {
  connection_id = id;
  remote_endpoint = peer.remote_endpoint;
  user_agent = peer.user_agent;
  connected_at = now;
  last_activity = now;
}

abbrev pub count_statistics : (Statistics → Statistics) → Call WebSocketHandler (Unit {0})
count_statistics f =
    with_lock statistics_mutex (modify λ s. record s { statistics = f s.statistics })

abbrev pub touched : ℕ → ℕ → Option ConnectionInfo → WebSocketHandler → WebSocketHandler
touched id now none s = s
touched id now (some info) s = record s {
  connection_info = put id (record info { last_activity = now }) s.connection_info;
}

unfoldable pub update_connection_activity : ℕ → ℕ → Call WebSocketHandler (Unit {0})
update_connection_activity id now =
    with_unique (modify λ s. touched id now (get id s.connection_info) s)

abbrev pub opened : ℕ → ℕ → Peer → ℕ → WebSocketHandler → WebSocketHandler
opened id hdl peer now s = record s {
  connections = put id hdl s.connections;
  connection_ids = put hdl id s.connection_ids;
  connection_info = put id (create_connection_info id peer now) s.connection_info;
}

unfoldable pub on_open : ℕ → Peer → ℕ → Call WebSocketHandler (Unit {0})
unfolding update_connection_activity trigger_connection_event
on_open hdl peer now = do
  id ← gets λ s. s.next_connection_id
  modify λ s. record s { next_connection_id = (id + 1) % 2 ^ 32 }
  with_unique do
    modify (opened id hdl peer now)
    count_statistics λ c. record c {
      total_connections = c.total_connections + 1;
      active_connections = c.active_connections + 1;
    }
  update_connection_activity id now
  trigger_connection_event connection_opened id [] now

abbrev pub closed : ℕ → ℕ → WebSocketHandler → WebSocketHandler
closed id hdl s = record s {
  connections = remove id s.connections;
  connection_ids = remove hdl s.connection_ids;
  connection_info = remove id s.connection_info;
}

-- The part of `on_close` under the lock, for the number found.
unfoldable pub forget : ℕ → Option ℕ → Call WebSocketHandler (Option ℕ)
forget hdl none = pure none
forget hdl (some id) = do
  modify (closed id hdl)
  count_statistics λ c. record c { active_connections = c.active_connections - 1 }
  pure (some id)

-- What a handler does for the number found.
abbrev pub if_known :
    Option ℕ → (ℕ → Call WebSocketHandler (Unit {0})) → Call WebSocketHandler (Unit {0})
if_known none then_do = pure tt
if_known (some id) then_do = then_do id

unfoldable pub on_close : ℕ → Bytes → ℕ → Call WebSocketHandler (Unit {0})
unfolding forget trigger_connection_event
on_close hdl close_reason now = do
  known ← with_unique (gets (λ s. get hdl s.connection_ids) >>= forget hdl)
  if_known known (λ id. trigger_connection_event connection_closed id close_reason now)

-- The number of a handle, under the shared lock.
unfoldable pub find_connection : ℕ → Call WebSocketHandler (Option ℕ)
find_connection hdl = with_shared (gets λ s. get hdl s.connection_ids)

-- The opcode of a message.
pub data Opcode : Type 0 where
  text binary other : Opcode

unfoldable pub receive : EventType → ℕ → Bytes → ℕ → Call WebSocketHandler (Unit {0})
unfolding update_connection_activity trigger_message_event
receive type id payload now = do
  update_connection_activity id now
  count_statistics λ c. record c { messages_received = c.messages_received + 1 }
  trigger_message_event type id payload now

abbrev pub received : Opcode → Bytes → ℕ → ℕ → Call WebSocketHandler (Unit {0})
received text payload now id = receive message_received id payload now
received binary payload now id = receive binary_message_received id payload now
received other payload now id = pure tt

unfoldable pub on_message : ℕ → Opcode → Bytes → ℕ → Call WebSocketHandler (Unit {0})
unfolding find_connection receive
on_message hdl opcode payload now = do
  known ← find_connection hdl
  if_known known (received opcode payload now)

unfoldable pub on_fail : ℕ → ℕ → Call WebSocketHandler (Unit {0})
unfolding find_connection trigger_connection_event
on_fail hdl now = do
  known ← find_connection hdl
  if_known known
      (λ id. trigger_connection_event connection_failed id (codes "Connection failed") now)

unfoldable pub on_pong_timeout : ℕ → ℕ → Call WebSocketHandler (Unit {0})
unfolding find_connection trigger_connection_event
on_pong_timeout hdl now = do
  known ← find_connection hdl
  if_known known (λ id. trigger_connection_event connection_timeout id (codes "Pong timeout") now)

abbrev pub keep_alive : EventType → Bytes → ℕ → ℕ → Call WebSocketHandler (Unit {0})
keep_alive type payload now id = do
  update_connection_activity id now
  trigger_system_event type (codes "WebSocketHandler")
      ((codes "connection_id", to_string id) ∷ (codes "payload", payload) ∷ []) now

unfoldable pub on_ping : ℕ → Bytes → ℕ → Call WebSocketHandler Bool
unfolding find_connection update_connection_activity trigger_system_event
on_ping hdl payload now = do
  known ← find_connection hdl
  if_known known (keep_alive ping_received payload now)
  pure true

unfoldable pub on_pong : ℕ → Bytes → ℕ → Call WebSocketHandler (Unit {0})
unfolding find_connection update_connection_activity trigger_system_event
on_pong hdl payload now = do
  known ← find_connection hdl
  if_known known (keep_alive pong_received payload now)

unfoldable pub get_active_connection_count : Call WebSocketHandler ℕ
get_active_connection_count = with_shared (gets λ s. length s.connections)

unfoldable pub get_active_connection_ids : Call WebSocketHandler (List ℕ)
get_active_connection_ids = with_shared (gets λ s. map (λ c. c.0) s.connections)

unfoldable pub is_connection_alive : ℕ → Call WebSocketHandler Bool
is_connection_alive id = with_shared (gets λ s. is_some (get id s.connections))

unfoldable pub on_validate : Call WebSocketHandler Bool
unfolding get_active_connection_count
on_validate = do
  required ← gets λ s. s.authentication_required
  limit ← gets λ s. s.connection_limit
  if required
      then pure true
      else (do count ← get_active_connection_count; pure (if leb limit count then false else true))

-- `sendMessage`, for a library that sends to a handle or gives an error; the result is what the
-- callback gets.
unfoldable pub deliver : Bool → ℕ → Bytes → ℕ → Call WebSocketHandler Bool
unfolding update_connection_activity trigger_message_event
deliver true id message now = do
  with_lock statistics_mutex do
    modify λ s. record s {
      statistics = record s.statistics { messages_sent = s.statistics.messages_sent + 1 };
    }
    update_connection_activity id now
    trigger_message_event message_sent id message now
  pure true
deliver false id message now = do trigger_message_event message_failed id message now; pure false

abbrev if_connected : (ℕ → Bytes → Bool) → ℕ → Bytes → ℕ → Option ℕ → Call WebSocketHandler Bool
if_connected send id message now none = pure false
if_connected send id message now (some hdl) = deliver (send hdl message) id message now

unfoldable pub send_message : (ℕ → Bytes → Bool) → ℕ → Bytes → ℕ → Call WebSocketHandler Bool
unfolding deliver
send_message send id message now =
    with_shared (gets (λ s. get id s.connections) >>= if_connected send id message now)

abbrev unless_sent : Bool → ℕ → List ℕ → List ℕ
unless_sent true id failed_connections = failed_connections
unless_sent false id failed_connections = id ∷ failed_connections

-- The failed ones of the connections, in order.
unfoldable pub send_to_all :
    (ℕ → Bytes → Bool) → List ℕ → Bytes → ℕ → Call WebSocketHandler (List ℕ)
unfolding send_message
send_to_all send [] message now = pure []
send_to_all send (id ∷ ids) message now = do
  success ← send_message send id message now
  failed_connections ← send_to_all send ids message now
  pure (unless_sent success id failed_connections)

unfoldable pub broadcast_message : (ℕ → Bytes → Bool) → Bytes → ℕ → Call WebSocketHandler (List ℕ)
unfolding get_active_connection_ids send_to_all
broadcast_message send message now =
    get_active_connection_ids >>= λ ids. send_to_all send ids message now
