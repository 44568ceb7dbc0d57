-- ===== src/WebSocket/Server.antt =====
-- The handlers of websocket_handler.cpp as the server calls them, one after the other.
use ur_webif.Base.{
  ℕ, ◌+◌, ◌<◌, ◌^◌, Bool, true, Option, none, some, [], ◌∷◌, Bytes, codes, to_string, ◌≡◌, refl,
  sym, get,
}
use mathlib.Core.Path.{subst}
use ur_webif.Run.{Run, Call, returns, ◌>>=◌, ◌>>◌, pure, Ends}
use ur_webif.Run.Returns.{bind-returns, Ends-then}
use ur_webif.WebSocket.State.{
  EventType, connection_opened, connection_closed, connection_failed, connection_timeout,
  ConnectionInfo, WebSocketHandler, IsIdle, free, exclusive, message_received,
  binary_message_received, ping_received, pong_received,
}
use ur_webif.WebSocket.Locks.{with_unique}
use ur_webif.WebSocket.Events.{
  trigger_connection_event, trigger_message_event, trigger_system_event,
}
use ur_webif.WebSocket.Events.Idle.{
  at_rest, at_rest-idle, Calls, trigger_connection_event-Calls, trigger_message_event-Calls,
  trigger_system_event-Calls,
}
use ur_webif.WebSocket.Connections.{
  Peer, Opcode, text, binary, other, on_open, on_close, on_message, on_fail, on_ping, on_pong,
  on_pong_timeout, update_connection_activity, touched, find_connection, if_known, receive,
  received, keep_alive, forget, count_statistics,
}
use ur_webif.WebSocket.Connections.Consistent.{
  Consistent, Consistent-touched, Consistent-opened, Consistent-closed, with_opened, with_closed,
}

-- What the library tells the handler, with the time.
pub data ServerEvent : Type 0 where
  opens : ℕ → Peer → ServerEvent
  closes : ℕ → Bytes → ServerEvent
  sends : ℕ → Opcode → Bytes → ServerEvent
  fails : ℕ → ServerEvent
  times_out : ℕ → ServerEvent
  pings : ℕ → Bytes → ServerEvent
  pongs : ℕ → Bytes → ServerEvent

abbrev pub handle : ServerEvent → ℕ → Call WebSocketHandler (Unit {0})
handle (opens hdl peer) now = on_open hdl peer now
handle (closes hdl reason) now = on_close hdl reason now
handle (sends hdl opcode payload) now = on_message hdl opcode payload now
handle (fails hdl) now = on_fail hdl now
handle (times_out hdl) now = on_pong_timeout hdl now
handle (pings hdl payload) now = on_ping hdl payload now >> pure tt
handle (pongs hdl payload) now = on_pong hdl payload now

-- A handle is opened once, and the numbers of the connections stay below the bound of `int`, where
-- the source goes on with negative ones.
abbrev pub Admissible : ServerEvent → WebSocketHandler → Type 0
Admissible (opens hdl peer) s =
    (get hdl s.connection_ids ≡ none) × (s.next_connection_id + 1 < 2 ^ 31)
Admissible (closes hdl reason) s = Unit
Admissible (sends hdl opcode payload) s = Unit
Admissible (fails hdl) s = Unit
Admissible (times_out hdl) s = Unit
Admissible (pings hdl payload) s = Unit
Admissible (pongs hdl payload) s = Unit

-- The handlers that come about from one on.
pub data Reachable (s : WebSocketHandler) : WebSocketHandler → Type 0 where
  here : Reachable s s
  after :
      {t u : WebSocketHandler} (event : ServerEvent) (now : ℕ)
      → Reachable s t
      → Admissible event t
      → handle event now t ≡ returns tt u
      → Reachable s u

pub record Good (s : WebSocketHandler) : Type 0 where
  pub idle : IsIdle s
  pub consistent : Consistent s

-- A handler that returns, with nothing else to tell than that the object is good.
Returns : Run WebSocketHandler (Unit {0}) → Type 0
Returns r = Ends r (λ _ t. Good t) (λ _ _. ⊥)

Calls-Returns :
    (s : WebSocketHandler) (r : Run WebSocketHandler (Unit {0}))
    → Consistent s
    → Calls s r
    → Returns r
unfolding Returns
Calls-Returns s r c calls = rw calls.ran (record {
  idle = record { connections_free = refl; statistics_free = refl; queue_free = refl };
  consistent = record {
    table = c.table;
    below = c.below;
    there = c.there;
    back = c.back;
    info = c.info;
    active = c.active;
    registry_free = c.registry_free;
  };
})

good : (s : WebSocketHandler) → Consistent s → Good (at_rest s)
good s c = record {
  idle = record { connections_free = refl; statistics_free = refl; queue_free = refl };
  consistent = record {
    table = c.table;
    below = c.below;
    there = c.there;
    back = c.back;
    info = c.info;
    active = c.active;
    registry_free = c.registry_free;
  };
}

quiet : (s : WebSocketHandler) → Consistent s → Returns (returns tt (at_rest s))
unfolding Returns
quiet s c = good s c

-- One message more in the statistics.
abbrev counted : WebSocketHandler → WebSocketHandler
counted s = record s {
  statistics = record s.statistics { messages_received = s.statistics.messages_received + 1 };
}

Consistent-counted : (s : WebSocketHandler) → Consistent s → Consistent (counted s)
Consistent-counted s c = record {
  table = c.table;
  below = c.below;
  there = c.there;
  back = c.back;
  info = c.info;
  active = c.active;
  registry_free = c.registry_free;
}

update_connection_activity-at_rest :
    (id now : ℕ) (s : WebSocketHandler)
    → update_connection_activity id now (at_rest s)
      ≡ returns tt (at_rest (touched id now (get id s.connection_info) s))
unfolding update_connection_activity
update_connection_activity-at_rest id now s = go (get id s.connection_info)
  where
    go :
        (o : Option ConnectionInfo)
        → ◌≡◌ {A = Run WebSocketHandler (Unit {0})}
            (returns tt
              (record (touched id now o (record (at_rest s) { connections_hold = exclusive })) {
                connections_hold = free;
              }))
            (returns tt (at_rest (touched id now o s)))
    go none = refl
    go (some info) = refl

-- After the activity of a connection is noted.
touched-then :
    (id now : ℕ) (s : WebSocketHandler) (k : Call WebSocketHandler (Unit {0}))
    → Consistent s
    → ((t : WebSocketHandler) → Consistent t → Returns (k (at_rest t)))
    → Returns ((update_connection_activity id now >> k) (at_rest s))
touched-then id now s k c h =
    rw
      (bind-returns (update_connection_activity id now) (λ _. k) (at_rest s) tt _
        (update_connection_activity-at_rest id now s))
      (h (touched id now (get id s.connection_info) s) (Consistent-touched id now s c))

trigger_connection_event-Returns :
    (type : EventType) (id : ℕ) (reason : Bytes) (now : ℕ) (s : WebSocketHandler)
    → Consistent s
    → Returns (trigger_connection_event type id reason now (at_rest s))
trigger_connection_event-Returns type id reason now s c =
    Calls-Returns s _ c (trigger_connection_event-Calls type id reason now s)

on_open-Returns :
    (hdl : ℕ) (peer : Peer) (now : ℕ) (s : WebSocketHandler)
    → get hdl s.connection_ids ≡ none
    → s.next_connection_id + 1 < 2 ^ 31
    → Consistent s
    → Returns (on_open hdl peer now (at_rest s))
unfolding on_open
on_open-Returns hdl peer now s new few c =
    touched-then s.next_connection_id now (with_opened hdl peer now s)
      (trigger_connection_event connection_opened s.next_connection_id [] now)
      (Consistent-opened hdl now peer s new few c)
      (λ t c'. trigger_connection_event-Returns connection_opened s.next_connection_id [] now t c')

on_close-Returns :
    (hdl : ℕ) (reason : Bytes) (now : ℕ) (s : WebSocketHandler)
    → Consistent s
    → Returns (on_close hdl reason now (at_rest s))
unfolding on_close forget
on_close-Returns hdl reason now s c = go (get hdl s.connection_ids) refl
  where
    go :
        (o : Option ℕ)
        → get hdl s.connection_ids ≡ o
        → Returns (
            (with_unique (forget hdl o) >>= λ known.
            if_known known (λ id. trigger_connection_event connection_closed id reason now))
              (at_rest s))
    go none e = quiet s c
    go (some id) e =
        trigger_connection_event-Returns connection_closed id reason now (with_closed id hdl s)
          (Consistent-closed id hdl s e c)

-- A handler that looks for the number of the handle first.
known-then :
    (hdl : ℕ) (f : ℕ → Call WebSocketHandler (Unit {0})) (s : WebSocketHandler)
    → Consistent s
    → ((id : ℕ) → Returns (f id (at_rest s)))
    → Returns ((find_connection hdl >>= λ known. if_known known f) (at_rest s))
unfolding find_connection
known-then hdl f s c h = go (get hdl s.connection_ids)
  where
    go : (o : Option ℕ) → Returns (if_known o f (at_rest s))
    go none = quiet s c
    go (some id) = h id

receive-Returns :
    (type : EventType) (id : ℕ) (payload : Bytes) (now : ℕ) (s : WebSocketHandler)
    → Consistent s
    → Returns (receive type id payload now (at_rest s))
unfolding receive
receive-Returns type id payload now s c =
    let more = count_statistics λ n. record n { messages_received = n.messages_received + 1 } in
    touched-then id now s (more >> trigger_message_event type id payload now) c (λ t c'.
      Calls-Returns (counted t) _ (Consistent-counted t c')
        (trigger_message_event-Calls type id payload now (counted t)))

received-Returns :
    (opcode : Opcode) (payload : Bytes) (now id : ℕ) (s : WebSocketHandler)
    → Consistent s
    → Returns (received opcode payload now id (at_rest s))
received-Returns text payload now id s c = receive-Returns message_received id payload now s c
received-Returns binary payload now id s c =
    receive-Returns binary_message_received id payload now s c
received-Returns other payload now id s c = quiet s c

keep_alive-Returns :
    (type : EventType) (payload : Bytes) (now id : ℕ) (s : WebSocketHandler)
    → Consistent s
    → Returns (keep_alive type payload now id (at_rest s))
keep_alive-Returns type payload now id s c =
    let values = (codes "connection_id", to_string id) ∷ (codes "payload", payload) ∷ [] in
    touched-then id now s (trigger_system_event type (codes "WebSocketHandler") values now) c
      (λ t c'.
        Calls-Returns t _ c'
          (trigger_system_event-Calls type (codes "WebSocketHandler") values now t))

answered :
    {A : Type 0} (m : Call WebSocketHandler A) (f : A → Call WebSocketHandler Bool)
    (s : WebSocketHandler)
    → Ends (m s) (λ _ t. Good t) (λ _ _. ⊥)
    → ((a : A) (t : WebSocketHandler) → Good t → Ends (f a t) (λ _ u. Good u) (λ _ _. ⊥))
    → Returns (((m >>= f) >> pure tt) s)
unfolding Returns
answered m f s h k =
    Ends-then (λ _ t. Good t) ((m >>= f) s) (λ _. pure tt) (Ends-then (λ _ t. Good t) (m s) f h k)
      (λ a t g. g)

on_ping-Returns :
    (hdl : ℕ) (payload : Bytes) (now : ℕ) (s : WebSocketHandler)
    → Consistent s
    → Returns ((on_ping hdl payload now >> pure tt) (at_rest s))
unfolding on_ping find_connection Returns
on_ping-Returns hdl payload now s c = go (get hdl s.connection_ids)
  where
    go :
        (o : Option ℕ)
        → Returns (
            ((if_known o (keep_alive ping_received payload now) >>= λ _. pure true) >> pure tt)
              (at_rest s))
    go none = good s c
    go (some id) =
        answered (keep_alive ping_received payload now id) (λ _. pure true) (at_rest s)
          (keep_alive-Returns ping_received payload now id s c) (λ a t g. g)

handle-Returns :
    (event : ServerEvent) (now : ℕ) (s : WebSocketHandler)
    → Admissible event s
    → Consistent s
    → Returns (handle event now (at_rest s))
unfolding on_message on_fail on_pong_timeout on_ping on_pong
handle-Returns (opens hdl peer) now s a c = on_open-Returns hdl peer now s a.0 a.1 c
handle-Returns (closes hdl reason) now s a c = on_close-Returns hdl reason now s c
handle-Returns (sends hdl opcode payload) now s a c =
    known-then hdl (received opcode payload now) s c
      (λ id. received-Returns opcode payload now id s c)
handle-Returns (fails hdl) now s a c =
    known-then hdl
      (λ id. trigger_connection_event connection_failed id (codes "Connection failed") now) s c
      (λ id.
        trigger_connection_event-Returns connection_failed id (codes "Connection failed") now s c)
handle-Returns (times_out hdl) now s a c =
    known-then hdl (λ id. trigger_connection_event connection_timeout id (codes "Pong timeout") now)
      s c
      (λ id. trigger_connection_event-Returns connection_timeout id (codes "Pong timeout") now s c)
handle-Returns (pings hdl payload) now s a c = on_ping-Returns hdl payload now s c
handle-Returns (pongs hdl payload) now s a c =
    known-then hdl (keep_alive pong_received payload now) s c
      (λ id. keep_alive-Returns pong_received payload now id s c)

returns_from :
    (event : ServerEvent) (now : ℕ) (s : WebSocketHandler)
    → Good s
    → Admissible event s
    → Ends (handle event now s) (λ _ u. Good u) (λ _ _. ⊥)
unfolding Returns
returns_from event now s g a =
    ap_back (handle event now) s (at_rest-idle s g.idle) (handle-Returns event now s a g.consistent)
  where
    ap_back :
        (m : Call WebSocketHandler (Unit {0})) (s : WebSocketHandler)
        → s ≡ at_rest s
        → Returns (m (at_rest s))
        → Returns (m s)
    ap_back m s e h = subst (λ t. Returns (m t)) (sym e) h

reached : (s t : WebSocketHandler) → Good s → Reachable s t → Good t
reached s t g here = g
reached s u g (after {t = t} event now r a e) =
    let h = returns_from event now t (reached s t g r) a in rw e at h

-- Starting with no thread inside and with consistent tables, after any sequence of connections
-- opened, each with a handle that is not open and a number below 2 ^ 31 - 1, messages, failures,
-- timeouts, pings, pongs and connections closed: no thread is inside (the mutexes of the
-- connections, the statistics, the queue and the registry are free), the tables are consistent, and
-- whatever comes next under the same conditions, its handler returns.
pub Reachable-Good :
    (s t : WebSocketHandler) (event : ServerEvent) (now : ℕ)
    → Good s
    → Reachable s t
    → Admissible event t
    → Good t × Ends (handle event now t) (λ _ u. Good u) (λ _ _. ⊥)
unfolding Returns
Reachable-Good s t event now g r a = let g' = reached s t g r in (g', returns_from event now t g' a)
