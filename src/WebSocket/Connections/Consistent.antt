-- ===== src/WebSocket/Connections/Consistent.antt =====
-- The tables of the connections through the events of the server.
use ur_webif.Base.{
  ℕ, ◌+◌, ◌-◌, ◌<◌, ◌%◌, ◌^◌, false, Option, none, some, is_some, ◌≡◌, refl, ◌∙◌, sym, ap, arith,
  ◌==◌, ==_iff, Bool-cases, Option-cases, inl, inr, length, get, IsTable, get-put, get-remove,
  IsTable-put, IsTable-remove, length-put_new, length-remove,
}
use ur_webif.WebSocket.State.{ConnectionInfo, WebSocketHandler}
use ur_webif.WebSocket.Connections.{Peer, create_connection_info, touched, opened, closed}

-- The three tables describe the same connections, whose numbers were all given out, and the
-- statistics count them; the mutex of the callback registry is free.
pub record Consistent (s : WebSocketHandler) : Type 0 where
  pub table : IsTable s.connections
  pub below : (id hdl : ℕ) → get id s.connections ≡ some hdl → id < s.next_connection_id
  pub there : (id hdl : ℕ) → get id s.connections ≡ some hdl → get hdl s.connection_ids ≡ some id
  pub back : (hdl id : ℕ) → get hdl s.connection_ids ≡ some id → get id s.connections ≡ some hdl
  pub info : (id : ℕ) → is_some (get id s.connection_info) ≡ is_some (get id s.connections)
  pub active : s.statistics.active_connections ≡ length s.connections
  pub registry_free : s.registry_held ≡ false

-- Another time of the last activity.
pub Consistent-touched :
    (id now : ℕ) (s : WebSocketHandler)
    → Consistent s
    → Consistent (touched id now (get id s.connection_info) s)
Consistent-touched id now s c = go (get id s.connection_info) refl
  where
    go :
        (o : Option ConnectionInfo) → get id s.connection_info ≡ o → Consistent (touched id now o s)
    go none e = c
    go (some info) e = record {
      table = c.table;
      below = c.below;
      there = c.there;
      back = c.back;
      info = λ j.
          rw (get-put id j (record info { last_activity = now }) s.connection_info)
            (elim (Bool-cases (id == j)) [
              | inl same ↦ rw same (
                  let at_j =
                    ap (λ (k : ℕ). get k s.connection_info) (sym ((==_iff id j).0 same)) ∙ e in
                  sym (ap is_some at_j) ∙ c.info j)
              | inr other ↦ rw other (c.info j)
            ]);
      active = c.active;
      registry_free = c.registry_free;
    }

unused : (s : WebSocketHandler) → Consistent s → get s.next_connection_id s.connections ≡ none
unused s c = elim (Option-cases (get s.next_connection_id s.connections)) [
  | inl e ↦ e
  | inr (hdl, e) ↦ (let lt = c.below s.next_connection_id hdl e in absurd (omega (arith, lt)))
]

-- The next number of a connection, below the bound of `int`.
no_wrap : (n : ℕ) → n + 1 < 2 ^ 31 → (n + 1) % 2 ^ 32 ≡ n + 1
no_wrap n h = omega arith

-- The handler with one connection more.
abbrev pub with_opened : ℕ → Peer → ℕ → WebSocketHandler → WebSocketHandler
with_opened hdl peer now s = record (opened s.next_connection_id hdl peer now s) {
  next_connection_id = (s.next_connection_id + 1) % 2 ^ 32;
  statistics = record s.statistics {
    total_connections = s.statistics.total_connections + 1;
    active_connections = s.statistics.active_connections + 1;
  };
}

pub Consistent-opened :
    (hdl now : ℕ) (peer : Peer) (s : WebSocketHandler)
    → get hdl s.connection_ids ≡ none
    → s.next_connection_id + 1 < 2 ^ 31
    → Consistent s
    → Consistent (with_opened hdl peer now s)
Consistent-opened hdl now peer s new few c =
    let id = s.next_connection_id in
    let info = create_connection_info id peer now in
    let free = unused s c in
    record {
      table = IsTable-put id hdl s.connections c.table;
      below = λ j k h.
          rw (no_wrap id few) (ground (arith, get-put id j hdl s.connections, h, c.below j k));
      there = λ j k h. ground (
        arith,
        get-put id j hdl s.connections,
        get-put hdl k id s.connection_ids,
        h,
        c.there j k,
        new,
      );
      back = λ k j h. ground (
        arith,
        get-put id j hdl s.connections,
        get-put hdl k id s.connection_ids,
        h,
        c.back k j,
        free,
      );
      info = λ j.
          rw (get-put id j info s.connection_info, get-put id j hdl s.connections)
            (elim (Bool-cases (id == j)) [
              | inl same ↦ rw same refl
              | inr other ↦ rw other (c.info j)
            ]);
      active = omega (arith, length-put_new id hdl s.connections free, c.active);
      registry_free = c.registry_free;
    }

-- The handler with one connection less.
abbrev pub with_closed : ℕ → ℕ → WebSocketHandler → WebSocketHandler
with_closed id hdl s = record (closed id hdl s) {
  statistics = record s.statistics { active_connections = s.statistics.active_connections - 1 };
}

pub Consistent-closed :
    (id hdl : ℕ) (s : WebSocketHandler)
    → get hdl s.connection_ids ≡ some id
    → Consistent s
    → Consistent (with_closed id hdl s)
Consistent-closed id hdl s known c =
    let open_now = c.back hdl id known in
    record {
      table = IsTable-remove id s.connections c.table;
      below = λ j k h. ground (arith, get-remove id j s.connections, h, c.below j k);
      there = λ j k h. ground (
        arith,
        get-remove id j s.connections,
        get-remove hdl k s.connection_ids,
        h,
        c.there j k,
        known,
      );
      back = λ k j h. ground (
        arith,
        get-remove id j s.connections,
        get-remove hdl k s.connection_ids,
        h,
        c.back k j,
        open_now,
      );
      info = λ j.
          rw (get-remove id j s.connection_info, get-remove id j s.connections)
            (elim (Bool-cases (id == j)) [
              | inl same ↦ rw same refl
              | inr other ↦ rw other (c.info j)
            ]);
      active =
          ap (λ (n : ℕ). n - 1) c.active
          ∙ sym (length-remove id hdl s.connections c.table open_now);
      registry_free = c.registry_free;
    }
