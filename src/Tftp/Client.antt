-- ===== src/Tftp/Client.antt =====
-- src/firmware-update/tftp_client.cpp: download_file of class TftpClient.
-- One round of its loop takes one event of the network; an event can also carry a cancellation.
pub mod Transfer
pub mod Delivery
pub mod Retry
use ur_webif.Base.{
  ℕ, zero, suc, ◌+◌, ◌*◌, ◌%◌, ◌<◌, Bool, true, false, not, ◌&&◌, ◌||◌, List, [], ◌∷◌, ◌++◌, Bytes,
  codes, to_string, ltb, ◌==◌, if◌then◌else◌, length, take,
}
use ur_webif.Tftp.Packet.{
  TftpPacket, empty_packet, serialize, deserialize, create_read_request, create_ack_packet,
  opcode_data, opcode_error, max_packet_size,
}
use ur_webif.Tftp.Network.{
  TftpError, no_error, timeout, network_error, file_not_found, access_violation, disk_full,
  illegal_operation, unknown_tid, file_exists, no_such_user, invalid_response, connection_failed,
  is_no_error, Received, datagram, timed_out, failed, Event, Notice, progress, completion, Client,
  set_error, close_socket, create_socket, resolve_server, send_packet, read_datagram,
  receive_packet, notify, update_progress, server_error,
}

-- The variables of the download loop.
pub record Download : Type 0 where
  pub client : Client
  pub buffer : Bytes
  pub expected_block : ℕ
  pub data_server_addr : ℕ

-- The end of one round: the loop stops, with the value of `success`, or goes on.
pub data Round : Type 0 where
  stop : Bool → Download → Round
  go : Download → Round

-- After the acknowledgment of a data packet.
on_acknowledged : TftpPacket → Download × Bool → Round
on_acknowledged response (d, false) = stop false d
on_acknowledged response (d, true) =
    let total =
      if length response.payload == d.client.block_size
      then length d.buffer * 2
      else length d.buffer in
    let status = codes "Downloading block " ++ to_string d.expected_block in
    let d' = record d { client = update_progress (length d.buffer) total status d.client } in
    if ltb (length response.payload) d.client.block_size
    then stop true d'
    else go (record d' { expected_block = (d.expected_block + 1) % 65536 })

abbrev send_ack : ℕ → Download → Download × Bool
send_ack block d =
    let (c, delivered) = send_packet (create_ack_packet block) d.data_server_addr d.client in
    (record d { client = c }, delivered)

-- A data packet; the address is up to date.
on_data : TftpPacket → Download → Round
unfolding on_acknowledged
on_data response d =
    if not (response.block_number == d.expected_block)
    then (if ltb response.block_number d.expected_block
        then go (send_ack response.block_number d).0
        else go d)
    else on_acknowledged response
        (send_ack d.expected_block (record d { buffer = d.buffer ++ response.payload }))

unfoldable pub on_packet : TftpPacket → ℕ → Download → Round
unfolding on_data server_error
on_packet response from d =
    let d' = if d.expected_block == 1 then record d { data_server_addr = from } else d in
    if response.opcode == opcode_error
    then stop false (record d' {
      client =
          set_error (server_error response.block_number)
            (codes "TFTP Error "
              ++ (to_string response.block_number ++ (codes ": " ++ response.payload)))
            d'.client;
    })
    else if not (response.opcode == opcode_data)
    then stop false (record d' {
      client =
          set_error invalid_response (codes "Unexpected packet type: " ++ to_string response.opcode)
            d'.client;
    })
    else on_data response d'

on_received : Download → TftpPacket × ℕ × Bool × Client → Round
on_received d (response, from, false, c) = stop false (record d { client = c })
on_received d (response, from, true, c) = on_packet response from (record d { client = c })

abbrev pub after_event : Event → List Event → Client → Client
after_event event later c = record c {
  incoming = later;
  cancelled = if event.cancels then true else c.cancelled;
}

-- One round of the loop on what the network gives, with the events after it.
unfoldable pub round : Event → List Event → Download → Round
unfolding on_received receive_packet
round event later d =
    on_received d (receive_packet event.received (after_event event later d.client))

-- `while (!cancelled && download_in_progress)`: the value of `success` and the variables. Each
-- round takes one event; with none left the receive runs into its timeout.
unfoldable pub transfer : List Event → Download → Bool × Download
unfolding round
transfer [] d =
    if d.client.cancelled
    then (false, d)
    else (false, record d { client = set_error timeout (codes "Receive timeout") d.client })
transfer (event ∷ later) d = elim d.client.cancelled [
  | true ↦ (false, d)
  | false ↦ elim (round event later d) [
    | stop success d' ↦ (success, d')
    | go d' ↦ transfer later d'
  ]
]

-- An attempt once the socket is there: the read request, then the loop.
unfoldable pub request_file : Bytes → Client → Bytes → Bool × Client × Bytes
unfolding send_packet
request_file filename c buffer =
    let (c', delivered) = send_packet (create_read_request filename) c.server_addr c in
    let (success, d) = transfer c'.incoming (record {
      client = c';
      buffer = buffer;
      expected_block = 1;
      data_server_addr = c'.server_addr;
    }) in
    if delivered then (success, d.client, d.buffer) else (false, c', buffer)

-- The body of the `for` loop; a retry begins with an empty buffer and a new socket.
unfoldable pub attempt_download : ℕ → Bytes → Client → Bytes → Bool × Client × Bytes
unfolding create_socket
attempt_download attempt filename c buffer =
    if ltb 0 attempt
    then (let (c', created) = create_socket c in
        if created then request_file filename c' [] else (false, c', []))
    else request_file filename c buffer

-- `for (attempt = …; attempt <= retries && !cancelled && !success; ++attempt)` with the number of
-- attempts left.
unfoldable pub run_attempts : ℕ → ℕ → Bytes → Client → Bytes → Bool × Client × Bytes
run_attempts zero attempt filename c buffer = (false, c, buffer)
run_attempts (suc left) attempt filename c buffer = elim c.cancelled [
  | true ↦ (false, c, buffer)
  | false ↦
      (let (success, c', buffer') = attempt_download attempt filename c buffer in
        elim success [
          | true ↦ (true, c', buffer')
          | false ↦ run_attempts left (suc attempt) filename c' buffer'
        ])
]

-- What follows the loop: the result and the client.
unfoldable pub finish_download : Bool × Client × Bytes → Bool × Client × Bytes
finish_download (success, c, buffer) =
    let closed = record (close_socket c) { downloading = false } in
    if success && not c.cancelled
    then (
      true,
      notify c.has_completion_callback
          (completion no_error (codes "Download completed successfully"))
          (update_progress (length buffer) (length buffer) (codes "Download complete") closed),
      buffer,
    )
    else (let reported =
          if c.cancelled
          then set_error timeout (codes "Download cancelled by user") closed
          else if is_no_error c.last_error
          then set_error timeout
              (codes "Download failed after " ++ (to_string (c.retries + 1) ++ codes " attempts"))
              closed
          else closed in
        (
          false,
          notify c.has_completion_callback
              (completion reported.last_error reported.last_error_message) reported,
          buffer,
        ))

-- The result, the client and the buffer.
unfoldable pub download_file : Bytes → Client → Bool × Client × Bytes
unfolding create_socket resolve_server
download_file remote_filename c =
    let (c1, created) = create_socket (record c { downloading = true; cancelled = false }) in
    let (c2, resolved) = resolve_server c1 in
    if not created
    then (false, record c1 { downloading = false }, [])
    else if not resolved
    then (false, record c2 { downloading = false }, [])
    else finish_download (run_attempts (c.retries + 1) 0 remote_filename c2 [])
