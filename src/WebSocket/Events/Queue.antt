-- ===== src/WebSocket/Events/Queue.antt =====
-- The event queue, which drops its oldest events.
use ur_webif.Base.{
  ℕ, ◌-◌, ◌≤◌, ◌<◌, Bool, true, List, [], ◌∷◌, ◌++◌, ◌≡◌, refl, ◌∙◌, sym, ap, arith, leb, length,
  drop, length-append, length-drop, drop-append, drop-drop, if◌then◌else◌, Bool-cases, inl, inr,
}
use mathlib.Core.List.{append_assoc, append-nil}
use ur_webif.Run.{Call, returns, ◌>>◌, pure}
use ur_webif.Run.Returns.{bind-returns}
use ur_webif.WebSocket.State.{WebSocketEvent, WebSocketHandler, IsIdle}
use ur_webif.WebSocket.Events.{trigger_event, pushed}
use ur_webif.WebSocket.Events.Idle.{at_rest, at_rest-idle, trigger_event-at_rest}

-- The events that come one after the other while nothing is taken out of the queue.
pub trigger_all : List WebSocketEvent → Call WebSocketHandler (Unit {0})
trigger_all [] = pure tt
trigger_all (event ∷ events) = trigger_event event >> trigger_all events

-- The last `n` elements, or all of them.
abbrev pub keep_last {ℓ} : {A : Type ℓ} → ℕ → List A → List A
keep_last n xs = drop (length xs - n) xs

module _ {A : Type 0} where
  keep_last-append :
      (n : ℕ) (xs ys : List A) → keep_last n (keep_last n xs ++ ys) ≡ keep_last n (xs ++ ys)
  keep_last-append n xs ys =
      let k = length xs - n in
      let e = drop-append k xs ys (omega arith) in
      let short = length-drop k xs in
      let l = length-append (drop k xs) ys in
      let l' = length-append xs ys in
      rw e (
        drop-drop (length (drop k (xs ++ ys)) - n) k (xs ++ ys)
        ∙ ap (λ (m : ℕ). drop m (xs ++ ys)) (omega (arith, ap length e, short, l, l')))

  pushed-keep_last :
      (n : ℕ) (xs : List A) (x : A)
      → 0 < n
      → length xs ≤ n
      → (if leb n (length xs) then drop 1 xs else xs) ++ x ∷ [] ≡ keep_last n (xs ++ x ∷ [])
  pushed-keep_last n xs x p h = elim (Bool-cases (leb n (length xs))) [
    | inl full ↦
        (let l = length-append xs (x ∷ []) in
          let one : length (xs ++ x ∷ []) - n ≡ 1 = ground (arith, l, full) in
          rw (full, one) (drop-append 1 xs (x ∷ []) (ground (arith, full))))
    | inr room ↦
        (let l = length-append xs (x ∷ []) in
          let none_over : length (xs ++ x ∷ []) - n ≡ 0 = ground (arith, l, room) in
          rw (room, none_over) refl)
  ]

  length-keep_last : (n : ℕ) (xs : List A) → length (keep_last n xs) ≤ n
  length-keep_last n xs = omega (arith, length-drop (length xs - n) xs)

abbrev holding : List WebSocketEvent → WebSocketHandler → WebSocketHandler
holding events s = record (at_rest s) { event_queue = events }

trigger_event-holding :
    (event : WebSocketEvent) (s : WebSocketHandler) (queue : List WebSocketEvent)
    → s.event_processing_active ≡ true
    → 0 < s.max_event_queue_size
    → length queue ≤ s.max_event_queue_size
    → trigger_event event (holding queue s)
      ≡ returns tt (holding (keep_last s.max_event_queue_size (queue ++ event ∷ [])) s)
trigger_event-holding event s queue a p h =
    trigger_event-at_rest event (record s { event_queue = queue })
    ∙ ap (λ (q : List WebSocketEvent). returns tt (holding q s))
        (ap
            (λ (active : Bool).
              if active
              then (pushed event (record s { event_queue = queue })).event_queue
              else queue)
            a
          ∙ pushed-keep_last s.max_event_queue_size queue event p h)

trigger_all-holding :
    (events : List WebSocketEvent) (s : WebSocketHandler) (queue : List WebSocketEvent)
    → s.event_processing_active ≡ true
    → 0 < s.max_event_queue_size
    → length queue ≤ s.max_event_queue_size
    → trigger_all events (holding queue s)
      ≡ returns tt (holding (keep_last s.max_event_queue_size (queue ++ events)) s)
unfolding trigger_all
trigger_all-holding [] s queue a p h =
    let n = s.max_event_queue_size in
    let whole : length (queue ++ []) - n ≡ 0 =
      ap (λ (xs : List WebSocketEvent). length xs - n) (append-nil queue) ∙ omega arith in
    ap (λ (q : List WebSocketEvent). returns tt (holding q s))
      (sym (ap (λ (k : ℕ). drop k (queue ++ [])) whole ∙ append-nil queue))
trigger_all-holding (event ∷ events) s queue a p h =
    let n = s.max_event_queue_size in
    let q = keep_last n (queue ++ event ∷ []) in
    let one = trigger_event-holding event s queue a p h in
    let rest = trigger_all-holding events s q a p (length-keep_last n (queue ++ event ∷ [])) in
    bind-returns (trigger_event event) (λ _. trigger_all events) (holding queue s) tt (holding q s)
      one
    ∙ rest
    ∙ ap (λ (q' : List WebSocketEvent). returns tt (holding q' s))
        (keep_last-append n (queue ++ event ∷ []) events
          ∙ ap (keep_last n) (append_assoc queue (event ∷ []) events))

-- With no thread inside, events being processed, and a positive maximal size of the queue that it
-- keeps to: events that come while none is taken out are put behind the others, of which then only
-- the last ones are left, as many as the maximal size.
pub trigger_all-keep_last :
    (events : List WebSocketEvent) (s : WebSocketHandler)
    → IsIdle s
    → s.event_processing_active ≡ true
    → 0 < s.max_event_queue_size
    → length s.event_queue ≤ s.max_event_queue_size
    → trigger_all events s
      ≡ returns tt
          (record s { event_queue = keep_last s.max_event_queue_size (s.event_queue ++ events) })
trigger_all-keep_last events s idle a p h =
    ap (trigger_all events) (at_rest-idle s idle)
    ∙ trigger_all-holding events s s.event_queue a p h
    ∙ ap
        (λ (t : WebSocketHandler).
          returns tt
            (record t { event_queue = keep_last s.max_event_queue_size (s.event_queue ++ events) }))
        (sym (at_rest-idle s idle))
