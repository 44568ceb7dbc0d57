-- ===== src/WebSocket/Callbacks/Rounds.antt =====
-- One event and the callbacks that it runs.
use ur_webif.Base.{
  ℕ, ◌+◌, ◌-◌, Bool, List, ◌&&◌, not, ltb, leb, ◌==◌, any_of, true, false, Option, none, some, [],
  ◌∷◌, Bytes, Assoc, lookup, IsMap, lookup-insert, eqb, eqb_iff, ◌≡◌, refl, ◌∙◌, sym, ap, arith,
  length, if◌then◌else◌, Bool-cases, inl, inr,
}
use ur_webif.Run.{returns}
use ur_webif.Json.{Attempt, done, threw}
use ur_webif.WebSocket.State.{
  EventType, EventFilter, EventResult, WebSocketEvent, CallbackRegistration, WebSocketHandler,
  IsIdle,
}
use ur_webif.WebSocket.Callbacks.{
  fails_types, misses, fails_custom, connection_of, has_type, priority_number, matches_filter,
  find_matching_callbacks, run_callback, run_found, run_all, process_event,
}

-- An empty list of types lets each event pass.
abbrev allows_type : List EventType → EventType → Bool
allows_type [] type = true
allows_type (first ∷ more) type = has_type type (first ∷ more)

-- An empty list of connections lets each event pass, any other only those of its connections and
-- the events of the system.
abbrev allows_connection : List ℕ → Option ℕ → Bool
allows_connection [] id = true
allows_connection (first ∷ more) none = true
allows_connection (first ∷ more) (some id) = any_of (λ other. other == id) (first ∷ more)

abbrev allows : Option (WebSocketEvent → Bool) → WebSocketEvent → Bool
allows none event = true
allows (some custom_filter) event = custom_filter event

-- The conditions of a filter on an event, all of which must hold.
abbrev pub passes : ℕ → WebSocketEvent → EventFilter → Bool
passes now event filter =
    allows_type filter.event_types event.type
    && leb (priority_number event.priority) (priority_number filter.min_priority)
    && leb (now - event.timestamp) filter.max_age
    && allows_connection filter.connection_ids (connection_of event.context)
    && allows filter.custom_filter event

-- A registration after its callback was called: it counts the executions that do not throw.
abbrev pub called : WebSocketEvent → CallbackRegistration → CallbackRegistration
called event registration = elim (registration.callback event) [
  | done result ↦ record registration { execution_count = registration.execution_count + 1 }
  | threw e ↦ registration
]

fails_types-allows :
    (types : List EventType) (type : EventType)
    → fails_types types type ≡ not (allows_type types type)
fails_types-allows [] type = refl
fails_types-allows (first ∷ more) type = refl

misses-allows : (ids : List ℕ) (id : Option ℕ) → misses ids id ≡ not (allows_connection ids id)
misses-allows [] id = refl
misses-allows (first ∷ more) none = refl
misses-allows (first ∷ more) (some id) = refl

fails_custom-allows :
    (custom : Option (WebSocketEvent → Bool)) (event : WebSocketEvent)
    → fails_custom custom event ≡ not (allows custom event)
fails_custom-allows none event = refl
fails_custom-allows (some custom_filter) event = refl

ltb-leb : (m n : ℕ) → ltb m n ≡ not (leb n m)
ltb-leb m n = ground arith

five_tests :
    (a b c d e : Bool)
    → (if not a
        then false
        else if not b
        then false
        else if not c
        then false
        else if not d
        then false
        else if not e
        then false
        else true)
      ≡ (a && b && c && d && e)
five_tests a b c d e = ground arith

matches_filter-passes :
    (now : ℕ) (event : WebSocketEvent) (filter : EventFilter)
    → matches_filter now event filter ≡ passes now event filter
unfolding matches_filter
matches_filter-passes now event filter =
    rw
      (
        matches_filter,
        fails_types-allows filter.event_types event.type,
        ltb-leb (priority_number filter.min_priority) (priority_number event.priority),
        ltb-leb filter.max_age (now - event.timestamp),
        misses-allows filter.connection_ids (connection_of event.context),
        fails_custom-allows filter.custom_filter event,
      )
      (five_tests (allows_type filter.event_types event.type)
        (leb (priority_number event.priority) (priority_number filter.min_priority))
        (leb (now - event.timestamp) filter.max_age)
        (allows_connection filter.connection_ids (connection_of event.context))
        (allows filter.custom_filter event))

run_callback-called :
    (event : WebSocketEvent) (registration : CallbackRegistration)
    → run_callback event registration
      ≡ (if registration.is_active then called event registration else registration)
run_callback-called event registration = go (registration.callback event) refl
  where
    go :
        (r : Attempt EventResult)
        → registration.callback event ≡ r
        → run_callback event registration
          ≡ (if registration.is_active then called event registration else registration)
    go (done result) e = rw (called, e) refl
    go (threw m) e = rw (called, e) refl

-- A registration after its turn in an event.
abbrev ran : WebSocketEvent → Option CallbackRegistration → Option CallbackRegistration
ran event none = none
ran event (some registration) = some (run_callback event registration)

abbrev turn :
    ℕ
    → WebSocketEvent
    → Option CallbackRegistration
    → Option CallbackRegistration
    → Option CallbackRegistration
turn now event none found = found
turn now event (some registration) found =
    if matches_filter now event registration.filter then ran event found else found

-- A registration after an event: its callback was called if the filter lets the event pass and the
-- registration is active.
abbrev pub answered : ℕ → WebSocketEvent → Option CallbackRegistration → Option CallbackRegistration
answered now event none = none
answered now event (some registration) = some (
    if passes now event registration.filter && registration.is_active
    then called event registration
    else registration)

turn-answered :
    (now : ℕ) (event : WebSocketEvent) (o : Option CallbackRegistration)
    → turn now event o o ≡ answered now event o
turn-answered now event none = refl
turn-answered now event (some registration) =
    rw (matches_filter-passes now event registration.filter)
      (elim (Bool-cases (passes now event registration.filter)) [
        | inl pass ↦ rw pass (ap some (run_callback-called event registration))
        | inr stop ↦ rw stop refl
      ])

-- How many of the filters let the event pass.
abbrev pub count_passing : ℕ → WebSocketEvent → Assoc CallbackRegistration → ℕ
count_passing now event [] = 0
count_passing now event ((id, registration) ∷ more) =
    (if passes now event registration.filter then 1 else 0) + count_passing now event more

length-find_matching_callbacks :
    (now : ℕ) (event : WebSocketEvent) (m : Assoc CallbackRegistration)
    → length (find_matching_callbacks now event m) ≡ count_passing now event m
unfolding find_matching_callbacks
length-find_matching_callbacks now event [] = refl
length-find_matching_callbacks now event ((id, registration) ∷ more) =
    let rest = length-find_matching_callbacks now event more in
    rw (matches_filter-passes now event registration.filter)
      (elim (Bool-cases (passes now event registration.filter)) [
        | inl pass ↦ rw pass (omega (arith, rest))
        | inr stop ↦ rw stop (omega (arith, rest))
      ])

lookup-run_found :
    (event : WebSocketEvent) (id k : Bytes) (m : Assoc CallbackRegistration)
    → lookup k (run_found event id (lookup id m) m)
      ≡ (if eqb id k then ran event (lookup k m) else lookup k m)
lookup-run_found event id k m = go (lookup id m) refl
  where
    at_k : eqb id k ≡ true → lookup k m ≡ lookup id m
    at_k same = ap (λ (i : Bytes). lookup i m) (sym ((eqb_iff id k).0 same))

    go :
        (o : Option CallbackRegistration)
        → lookup id m ≡ o
        → lookup k (run_found event id o m)
          ≡ (if eqb id k then ran event (lookup k m) else lookup k m)
    go none e = elim (Bool-cases (eqb id k)) [
      | inl same ↦ rw same (rw (at_k same ∙ e) refl)
      | inr differ ↦ rw differ refl
    ]
    go (some registration) e =
        lookup-insert id k (run_callback event registration) m ∙ elim (Bool-cases (eqb id k)) [
          | inl same ↦ rw same (rw (at_k same ∙ e) refl)
          | inr differ ↦ rw differ refl
        ]

lookup-run_all :
    (now : ℕ) (event : WebSocketEvent) (found m : Assoc CallbackRegistration) (k : Bytes)
    → IsMap found
    → lookup k (run_all event (find_matching_callbacks now event found) m)
      ≡ turn now event (lookup k found) (lookup k m)
unfolding find_matching_callbacks run_all lookup
lookup-run_all now event [] m k h = refl
lookup-run_all now event ((id, registration) ∷ more) m k h =
    elim (Bool-cases (matches_filter now event registration.filter)) [
      | inl passes ↦
          (let m' = run_found event id (lookup id m) m in
            let rest = lookup-run_all now event more m' k h.1 in
            let here = lookup-run_found event id k m in
            elim (Bool-cases (eqb id k)) [
              | inl same ↦
                  (let gone =
                      ap (λ (i : Bytes). lookup i more) (sym ((eqb_iff id k).0 same)) ∙ h.0 in
                    rw (passes, same) (rw gone at rest ∙ (here ∙ rw (same, passes) refl)))
              | inr differ ↦
                  rw (passes, differ)
                    (rest ∙ ap (turn now event (lookup k more)) (here ∙ rw differ refl))
            ])
      | inr refuses ↦
          (let rest = lookup-run_all now event more m k h.1 in
            elim (Bool-cases (eqb id k)) [
              | inl same ↦
                  (let gone =
                      ap (λ (i : Bytes). lookup i more) (sym ((eqb_iff id k).0 same)) ∙ h.0 in
                    rw (refuses, same, refuses) (rw gone at rest))
              | inr differ ↦ rw (refuses, differ) rest
            ])
    ]

-- With no thread inside and one registration for each identifier: an event runs the callback of
-- each registration whose filter it passes and that is active, which counts one execution if the
-- callback does not throw, and leaves each other registration as it is. An event passes a filter by
-- its type, its priority, its age, its connection and the custom test. The statistics count the event, and of the callbacks all
-- whose filters it passes, also those that are not active.
pub process_event-turns :
    (event : WebSocketEvent) (now : ℕ) (id : Bytes) (s : WebSocketHandler)
    → IsIdle s
    → s.registry_held ≡ false
    → IsMap s.callback_registry
    → (t : WebSocketHandler) × (process_event event now s ≡ returns tt t)
      × (lookup id t.callback_registry ≡ answered now event (lookup id s.callback_registry))
      × (t.statistics.events_processed ≡ s.statistics.events_processed + 1)
      × (t.statistics.callbacks_executed
          ≡ s.statistics.callbacks_executed + count_passing now event s.callback_registry)
unfolding process_event
process_event-turns event now id s idle free h =
    let found = find_matching_callbacks now event s.callback_registry in
    (
      record s {
        callback_registry = run_all event found s.callback_registry;
        statistics = record s.statistics {
          events_processed = s.statistics.events_processed + 1;
          callbacks_executed = s.statistics.callbacks_executed + length found;
        };
      },
      ground (arith, idle.statistics_free, free),
      lookup-run_all now event s.callback_registry s.callback_registry id h
          ∙ turn-answered now event (lookup id s.callback_registry),
      refl,
      ap (λ (n : ℕ). s.statistics.callbacks_executed + n)
          (length-find_matching_callbacks now event s.callback_registry),
    )
