-- ===== src/Tftp/Client/Delivery.antt =====
-- A download from a server that sends the blocks of a file in order, with any other data packets
-- between them.
use mathlib.Core.List.{append_assoc, append-nil}
use ur_webif.Base.{
  ℕ, zero, suc, ◌+◌, ◌%◌, ◌≤◌, ◌<◌, Bool, true, false, List, [], ◌∷◌, ◌++◌, Bytes, ◌≡◌, ◌≢◌, refl,
  sym, ◌∙◌, ap, arith, inl, inr, length, take, drop, take-append-drop, length-take, length-drop,
  ltb, lt→ltb, ltb→lt, Bool-cases, if◌then◌else◌,
}
use ur_webif.Tftp.Network.{Event}
use ur_webif.Tftp.Client.{Download, stop, go, round, transfer}
use ur_webif.Tftp.Client.Transfer.{
  data_packet, arrives, round-arrives, IsReady, taken, passed, on_packet-expected, on_packet-other,
}

-- The bytes of the blocks, one after the other.
abbrev pub joined : List Bytes → Bytes
joined [] = []
joined (chunk ∷ chunks) = chunk ++ joined chunks

-- The events bring the blocks from number `n` on, full ones and then a short one. Between them
-- other data packets may arrive, such as repeated blocks. Block numbers wrap at 65536.
pub data Delivers (from block_size : ℕ) : ℕ → List Bytes → List Event → Type 0 where
  last :
      {n : ℕ} {chunk : Bytes} {later : List Event}
      → length chunk < block_size
      → Delivers from block_size n (chunk ∷ []) (arrives from (data_packet n chunk) ∷ later)
  block :
      {n m : ℕ} {chunk : Bytes} {chunks : List Bytes} {later : List Event}
      → length chunk ≡ block_size
      → m ≡ (n + 1) % 65536
      → Delivers from block_size m chunks later
      → Delivers from block_size n (chunk ∷ chunks) (arrives from (data_packet n chunk) ∷ later)
  other :
      {n : ℕ} (k : ℕ) (junk : Bytes) {chunks : List Bytes} {later : List Event}
      → k ≢ n
      → k < 65536
      → length junk ≤ 65464
      → Delivers from block_size n chunks later
      → Delivers from block_size n chunks (arrives from (data_packet k junk) ∷ later)

pub transfer-stop :
    (event : Event) (later : List Event) (d d' : Download) (success : Bool)
    → d.client.cancelled ≡ false
    → round event later d ≡ stop success d'
    → transfer (event ∷ later) d ≡ (success, d')
unfolding transfer
transfer-stop event later d d' success running e = rw (running, transfer) (rw (e, transfer))

transfer-go :
    (event : Event) (later : List Event) (d d' : Download)
    → d.client.cancelled ≡ false
    → round event later d ≡ go d'
    → transfer (event ∷ later) d ≡ transfer later d'
unfolding transfer
transfer-go event later d d' running e = rw (running, transfer) (rw (e, transfer))

same_size : {bs n : ℕ} (d : Download) → IsReady bs n d → IsReady d.client.block_size n d
same_size d r = record { expected = r.expected; size = refl; sends = r.sends; running = r.running }

round-expected :
    {bs : ℕ} (from n : ℕ) (chunk : Bytes) (later : List Event) (d : Download)
    → IsReady bs n d
    → n < 65536
    → length chunk ≤ 65464
    → round (arrives from (data_packet n chunk)) later d ≡ (
        if ltb (length chunk) d.client.block_size
        then stop true (taken from n chunk later d)
        else go (record (taken from n chunk later d) { expected_block = (n + 1) % 65536 }))
round-expected from n chunk later d r word l =
    round-arrives from (data_packet n chunk) later d (record { kind = inl refl; is_word = word }) l
    ∙ on_packet-expected from n chunk later d (same_size d r)

taken-next :
    {bs : ℕ} (from n : ℕ) (chunk : Bytes) (later : List Event) (d : Download)
    → IsReady bs n d
    → IsReady bs
        ((n + 1) % 65536)
        (record (taken from n chunk later d) { expected_block = (n + 1) % 65536 })
taken-next from n chunk later d r = ground arith

taken-last_error :
    (from n : ℕ) (chunk : Bytes) (later : List Event) (d : Download)
    → (taken from n chunk later d).client.last_error ≡ d.client.last_error
taken-last_error from n chunk later d = ground arith

-- What a finished loop has done.
abbrev pub Completes : List Event → Download → Bytes → Type 0
Completes events d file =
    (d' : Download) × (transfer events d ≡ (true, d'))
    × (d'.buffer ≡ d.buffer ++ file)
    × (d'.client.cancelled ≡ false)
    × (d'.client.last_error ≡ d.client.last_error)

-- With datagrams that go out, nobody cancelling and a block size that fits a packet: from a loop
-- that awaits block `n`, the blocks delivered end it with success, and the buffer has grown by
-- exactly their bytes, also past a wrap of the block number. Nobody has cancelled, and the last
-- error is the one from before.
pub transfer-Delivers :
    {from bs n : ℕ} {chunks : List Bytes} {events : List Event} (d : Download)
    → Delivers from bs n chunks events
    → IsReady bs n d
    → n < 65536
    → bs ≤ 65464
    → Completes events d (joined chunks)
transfer-Delivers {from} {bs} {n} d (last {chunk = chunk} {later = later} short) r word limit =
    let small : ltb (length chunk) d.client.block_size ≡ true =
      lt→ltb _ _ (omega (arith, r.size)) in
    (
      taken from n chunk later d,
      transfer-stop _ later d _ true r.running
          (round-expected from n chunk later d r word (omega arith) ∙ rw small),
      rw append-nil,
      (taken-next from n chunk later d r).running,
      taken-last_error from n chunk later d,
    )
transfer-Delivers {from} {bs} {n} d
      (block {m = m} {chunk = chunk} {chunks = chunks} {later = later} full e more) r word limit =
    let large : ltb (length chunk) d.client.block_size ≡ false = ground (arith, full, r.size) in
    let d' = record (taken from n chunk later d) { expected_block = (n + 1) % 65536 } in
    let q = taken-next from n chunk later d r in
    let r' : IsReady bs m d' = record {
      expected = sym e;
      size = q.size;
      sends = q.sends;
      running = q.running;
    } in
    let (u, ran, grown, kept, old) = transfer-Delivers d' more r' (omega (arith, e)) limit in
    (
      u,
      transfer-go _ later d d' r.running
            (round-expected from n chunk later d r word (omega (arith, full)) ∙ rw large)
          ∙ ran,
      grown ∙ append_assoc d.buffer chunk (joined chunks),
      kept,
      old ∙ taken-last_error from n chunk later d,
    )
transfer-Delivers {from} {bs} {n} d (other k junk {chunks = chunks} {later = later} ne kw l more) r
      word limit =
    let d' = passed from n k junk later d in
    let r' : IsReady bs n d' = record {
      expected = r.expected;
      size = r.size;
      sends = r.sends;
      running = r.running;
    } in
    let (u, ran, grown, kept, old) = transfer-Delivers d' more r' word limit in
    (
      u,
      transfer-go _ later d d' r.running (
            round-arrives from (data_packet k junk) later d
              (record { kind = inl refl; is_word = kw }) l
            ∙ on_packet-other from n k junk later d (same_size d r) ne)
          ∙ ran,
      grown,
      kept,
      old,
    )

-- The blocks that a server makes of a file: full ones, and then a short one, which may be empty.
-- The fuel is more than the length of the file.
abbrev split_blocks : ℕ → ℕ → Bytes → List Bytes
split_blocks zero bs file = []
split_blocks (suc fuel) bs file =
    let more = split_blocks fuel bs (drop bs file) in
    if ltb (length file) bs then file ∷ [] else take bs file ∷ more

-- The arrivals of the blocks from number `n` on.
abbrev block_events : ℕ → ℕ → List Bytes → List Event
block_events from n [] = []
block_events from n (chunk ∷ chunks) =
    arrives from (data_packet n chunk) ∷ block_events from ((n + 1) % 65536) chunks

-- What a server at the address sends for a file.
abbrev pub file_events : ℕ → ℕ → ℕ → Bytes → List Event
file_events from bs n file = block_events from n (split_blocks (suc (length file)) bs file)

split_blocks-Delivers :
    (from bs fuel n : ℕ) (file : Bytes)
    → 0 < bs
    → length file < fuel
    → Delivers from bs n
        (split_blocks fuel bs file)
        (block_events from n (split_blocks fuel bs file))
      × (joined (split_blocks fuel bs file) ≡ file)
split_blocks-Delivers from bs zero n file pos h = elim h [ ]
split_blocks-Delivers from bs (suc fuel) n file pos h = elim (Bool-cases (ltb (length file) bs)) [
  | inl short ↦ rw short (last (ltb→lt _ _ short), append-nil file)
  | inr long ↦
      let rest =
        split_blocks-Delivers from bs fuel ((n + 1) % 65536) (drop bs file) pos
          (ground (arith, length-drop bs file, long)) in
      rw long (
        block (ground (arith, length-take bs file, long)) refl rest.0,
        ap (◌++◌ (take bs file)) rest.1 ∙ take-append-drop bs file,
      )
]

-- A server that sends a file in blocks of the size that the client expects, from block 1 on, is
-- read to the end: the loop succeeds, and its buffer is the file, whatever the length of the file.
-- Nobody has cancelled, and the last error is the one from before.
pub transfer-file_events :
    (from bs : ℕ) (file : Bytes) (d : Download)
    → 0 < bs
    → bs ≤ 65464
    → IsReady bs 1 d
    → d.buffer ≡ []
    → (d' : Download) × (transfer (file_events from bs 1 file) d ≡ (true, d'))
      × (d'.buffer ≡ file)
      × (d'.client.cancelled ≡ false)
      × (d'.client.last_error ≡ d.client.last_error)
transfer-file_events from bs file d pos limit r empty =
    let (delivers, whole) =
      split_blocks-Delivers from bs (suc (length file)) 1 file pos (omega arith) in
    let (d', ran, grown, kept, old) = transfer-Delivers d delivers r (omega arith) limit in
    (d', ran, grown ∙ rw (empty, whole), kept, old)
