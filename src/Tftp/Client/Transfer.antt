-- ===== src/Tftp/Client/Transfer.antt =====
-- The download loop against a server that sends the blocks of a file.
use ur_webif.Base.{
  ◌/◌, ℕ, ◌+◌, ◌*◌, ◌%◌, ◌≤◌, true, false, List, [], ◌∷◌, ◌++◌, Bytes, ◌≡◌, ◌≢◌, arith, length,
  drop, take_all, ltb, ◌==◌, if◌then◌else◌, codes, to_string,
}
use ur_webif.Tftp.Packet.{TftpPacket, serialize, create_ack_packet, opcode_data, max_packet_size}
use ur_webif.Tftp.Packet.RoundTrip.{IsReply, deserialize-serialize}
use ur_webif.Tftp.Network.{
  datagram, Event, Client, read_datagram, receive_packet, send_packet, update_progress,
}
use ur_webif.Tftp.Client.{Download, stop, go, on_packet, round, after_event}

abbrev pub data_packet : ℕ → Bytes → TftpPacket
data_packet n chunk = record { opcode = opcode_data; block_number = n; payload = chunk }

-- The arrival of a packet from an address.
abbrev pub arrives : ℕ → TftpPacket → Event
arrives from packet = record { cancels = false; received = datagram from (serialize packet) }

length-serialize : (p : TftpPacket) → length (serialize p) ≤ length p.payload + 4
unfolding serialize
length-serialize p = ground arith

read_datagram-serialize :
    (p : TftpPacket)
    → IsReply p
    → length p.payload ≤ 65464
    → read_datagram (serialize p) ≡ (p, true)
unfolding read_datagram
read_datagram-serialize p h l =
    rw (take_all max_packet_size (serialize p) (omega (arith, length-serialize p)))
      (deserialize-serialize p h)

serialize_cons : (p : TftpPacket) → (b : ℕ) × (bs : Bytes) × (serialize p ≡ b ∷ bs)
unfolding serialize
serialize_cons p = (p.opcode / 256 % 256, drop 1 (serialize p), ground arith)

pub receive_packet-arrives :
    (from : ℕ) (p : TftpPacket) (c : Client)
    → IsReply p
    → length p.payload ≤ 65464
    → receive_packet (arrives from p).received c ≡ (p, from, true, c)
unfolding receive_packet
receive_packet-arrives from p c h l =
    let (b, bs, e) = serialize_cons p in rw e (rw (rw e at (read_datagram-serialize p h l)))

pub round-arrives :
    (from : ℕ) (p : TftpPacket) (later : List Event) (d : Download)
    → IsReply p
    → length p.payload ≤ 65464
    → round (arrives from p) later d
      ≡ on_packet p from (record d { client = after_event (arrives from p) later d.client })
unfolding round
round-arrives from p later d h l =
    rw (receive_packet-arrives from p (after_event (arrives from p) later d.client) h l)

-- The loop awaits block `n`, nobody has cancelled, and datagrams go out.
pub record IsReady (block_size n : ℕ) (d : Download) : Type 0 where
  pub expected : d.expected_block ≡ n
  pub size : d.client.block_size ≡ block_size
  pub sends : d.client.send_answers ≡ []
  pub running : d.client.cancelled ≡ false

-- The variables after block `n` with the given data has been taken and acknowledged.
abbrev pub taken : ℕ → ℕ → Bytes → List Event → Download → Download
taken from n chunk later d =
    let addr = if n == 1 then from else d.data_server_addr in
    let total =
      if length chunk == d.client.block_size
      then length (d.buffer ++ chunk) * 2
      else length (d.buffer ++ chunk) in
    record {
      client =
          update_progress (length (d.buffer ++ chunk)) total
            (codes "Downloading block " ++ to_string n)
            (record d.client {
              incoming = later;
              send_answers = [];
              sent = d.client.sent ++ (addr, serialize (create_ack_packet n)) ∷ [];
            });
      buffer = d.buffer ++ chunk;
      expected_block = n;
      data_server_addr = addr;
    }

pub on_packet-expected :
    (from n : ℕ) (chunk : Bytes) (later : List Event) (d : Download)
    → IsReady d.client.block_size n d
    → on_packet
        (data_packet n chunk)
        from
        (record d { client = after_event (arrives from (data_packet n chunk)) later d.client })
      ≡ (if ltb (length chunk) d.client.block_size
          then stop true (taken from n chunk later d)
          else go (record (taken from n chunk later d) { expected_block = (n + 1) % 65536 }))
unfolding on_packet send_packet
on_packet-expected from n chunk later d r = ground arith

-- The variables after a data packet `k` that is not the awaited block `n`.
abbrev pub passed : ℕ → ℕ → ℕ → Bytes → List Event → Download → Download
passed from n k junk later d =
    let addr = if n == 1 then from else d.data_server_addr in
    record d {
      client = record (after_event (arrives from (data_packet k junk)) later d.client) {
        sent =
            if ltb k n
            then d.client.sent ++ (addr, serialize (create_ack_packet k)) ∷ []
            else d.client.sent;
      };
      data_server_addr = addr;
    }

pub on_packet-other :
    (from n k : ℕ) (junk : Bytes) (later : List Event) (d : Download)
    → IsReady d.client.block_size n d
    → k ≢ n
    → on_packet
        (data_packet k junk)
        from
        (record d { client = after_event (arrives from (data_packet k junk)) later d.client })
      ≡ go (passed from n k junk later d)
unfolding on_packet send_packet
on_packet-other from n k junk later d r ne = ground arith
