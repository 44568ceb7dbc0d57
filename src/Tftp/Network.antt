-- ===== src/Tftp/Network.antt =====
-- src/firmware-update/tftp_client.cpp: struct TftpClient::Impl, its sockets and its reports.
--
-- The network is part of the state: what `socket`, `sendto` and `recvfrom` will answer, and the
-- datagrams sent so far. A list of answers that has run out stands for success of `socket` and
-- `sendto`, and for a receive timeout. An event can also carry a cancellation by another thread,
-- which is noticed at the next test of the flag.
use ur_webif.Base.{
  ℕ, Bool, true, false, List, [], ◌∷◌, ◌++◌, Bytes, codes, ◌==◌, if◌then◌else◌, take,
}
use ur_webif.Tftp.Packet.{TftpPacket, empty_packet, serialize, deserialize, max_packet_size}

pub data TftpError : Type 0 where
  no_error timeout network_error file_not_found access_violation disk_full : TftpError
  illegal_operation unknown_tid file_exists no_such_user invalid_response : TftpError
  connection_failed : TftpError

-- `TftpError == TftpError::NONE`
abbrev pub is_no_error : TftpError → Bool
is_no_error no_error = true
is_no_error _ = false

-- What one call of `recvfrom` gives: a datagram with its sender, a timeout, or another error.
pub data Received : Type 0 where
  datagram : ℕ → Bytes → Received
  timed_out : Received
  failed : Bytes → Received

pub record Event : Type 0 where
  pub cancels : Bool
  pub received : Received

-- What the callbacks were called with; the percentage and the elapsed time are left out.
pub data Notice : Type 0 where
  progress : ℕ → ℕ → Bytes → Notice
  completion : TftpError → Bytes → Notice

pub record Client : Type 0 where
  pub retries : ℕ
  pub block_size : ℕ
  pub has_progress_callback : Bool
  pub has_completion_callback : Bool
  pub socket_open : Bool
  pub connected : Bool
  pub downloading : Bool
  pub cancelled : Bool
  pub last_error : TftpError
  pub last_error_message : Bytes
  -- the network and the callbacks
  pub resolves : Bool
  pub server_addr : ℕ
  pub socket_answers : List Bool
  pub send_answers : List Bool
  pub incoming : List Event
  pub sent : List (ℕ × Bytes)
  pub notices : List Notice

abbrev pub set_error : TftpError → Bytes → Client → Client
set_error error message c = record c { last_error = error; last_error_message = message }

abbrev pub close_socket : Client → Client
close_socket c = record c { socket_open = false; connected = false }

next_answer : List Bool → Bool × List Bool
next_answer [] = (true, [])
next_answer (a ∷ as') = (a, as')

unfoldable pub create_socket : Client → Client × Bool
unfolding next_answer
create_socket c =
    let (created, answers) = next_answer c.socket_answers in
    let closed = record (close_socket c) { socket_answers = answers } in
    if created
    then (record closed { socket_open = true }, true)
    else (set_error network_error (codes "Failed to create socket") closed, false)

unfoldable pub resolve_server : Client → Client × Bool
resolve_server c =
    if c.resolves
    then (c, true)
    else (set_error network_error (codes "Failed to resolve server address") c, false)

unfoldable pub send_packet : TftpPacket → ℕ → Client → Client × Bool
unfolding next_answer
send_packet packet addr c =
    let (delivered, answers) = next_answer c.send_answers in
    let asked = record c { send_answers = answers } in
    if delivered
    then (record asked { sent = c.sent ++ (addr, serialize packet) ∷ [] }, true)
    else (set_error network_error (codes "Failed to send packet") asked, false)

-- The packet in a datagram, as far as it fits the buffer, and whether it is well formed.
unfoldable pub read_datagram : Bytes → TftpPacket × Bool
read_datagram bytes = deserialize empty_packet (take max_packet_size bytes)

abbrev receive_data : Bytes → Client → TftpPacket × Bool × Client
receive_data [] c =
    (empty_packet, false, set_error network_error (codes "Connection closed by peer") c)
receive_data (b ∷ bs) c = let (packet, valid) = read_datagram (b ∷ bs) in (packet, valid, c)

-- `receive_packet`: the packet, the sender, the result and the client.
unfoldable pub receive_packet : Received → Client → TftpPacket × ℕ × Bool × Client
receive_packet (datagram from bytes) c =
    let (packet, valid, c') = receive_data bytes c in (packet, from, valid, c')
receive_packet timed_out c = (empty_packet, 0, false, set_error timeout (codes "Receive timeout") c)
receive_packet (failed message) c =
    (empty_packet, 0, false, set_error network_error (codes "Network error: " ++ message) c)

abbrev pub notify : Bool → Notice → Client → Client
notify has_callback notice c =
    if has_callback then record c { notices = c.notices ++ notice ∷ [] } else c

abbrev pub update_progress : ℕ → ℕ → Bytes → Client → Client
update_progress bytes_transferred total_bytes status c =
    notify c.has_progress_callback (progress bytes_transferred total_bytes status) c

-- The error that an error packet of the server stands for.
unfoldable pub server_error : ℕ → TftpError
server_error code =
    if code == 1
    then file_not_found
    else if code == 2
    then access_violation
    else if code == 3
    then disk_full
    else if code == 4
    then illegal_operation
    else if code == 5
    then unknown_tid
    else if code == 6
    then file_exists
    else if code == 7
    then no_such_user
    else invalid_response
