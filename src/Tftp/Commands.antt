-- ===== src/Tftp/Commands.antt =====
-- src/firmware-update/tftp_client.cpp: test_connection, download_file_to_path, cancel_operation and
-- the setters of class TftpClient.
pub mod Results
use ur_webif.Base.{
  ℕ, Bool, true, false, Option, none, some, List, [], ◌∷◌, Bytes, codes, if◌then◌else◌,
}
use ur_webif.Tftp.Packet.{TftpPacket, create_read_request}
use ur_webif.Tftp.Network.{
  connection_failed, access_violation, disk_full, Received, timed_out, Event, Client, set_error,
  close_socket, create_socket, resolve_server, send_packet, receive_packet,
}
use ur_webif.Tftp.Client.{after_event, download_file}

unfoldable pub set_retries : ℕ → Client → Client
set_retries retries c = record c { retries = retries }

unfoldable pub set_block_size : ℕ → Client → Client
set_block_size block_size c = record c { block_size = block_size }

-- What the next receive gives; with no event left it runs into its timeout.
abbrev pub receive_next : List Event → Client → TftpPacket × ℕ × Bool × Client
receive_next [] c = receive_packet timed_out c
receive_next (event ∷ later) c = receive_packet event.received (after_event event later c)

-- What follows the receive.
unfoldable pub conclude : TftpPacket × ℕ × Bool × Client → Client × Bool
conclude (response, from, received, c) =
    if received
    then (record (close_socket c) { connected = true }, true)
    else (set_error connection_failed (codes "TFTP server not responding") (close_socket c), false)

unfoldable pub test_connection : Client → Client × Bool
unfolding create_socket resolve_server send_packet receive_packet conclude
test_connection c =
    let (c1, created) = create_socket c in
    let (c2, resolved) = resolve_server c1 in
    let (c3, delivered) =
      send_packet (create_read_request (codes "__test_connection__")) c2.server_addr c2 in
    if created
    then (if resolved
        then (if delivered then conclude (receive_next c3.incoming c3) else (c3, false))
        else (c2, false))
    else (c1, false)

-- Whether the local file opens for writing, and whether it is good after the write.
pub record LocalFile : Type 0 where
  pub opens : Bool
  pub is_good : Bool

-- The result, the client, and the bytes handed to the local file.
unfoldable pub store_download : LocalFile → Bool × Client × Bytes → Bool × Client × Option Bytes
store_download file (false, c, buffer) = (false, c, none)
store_download file (true, c, buffer) =
    if file.opens
    then (if file.is_good
        then (true, c, some buffer)
        else (false, set_error disk_full (codes "Failed to write to local file") c, some buffer))
    else (false, set_error access_violation (codes "Cannot create local file") c, none)

unfoldable pub download_file_to_path : LocalFile → Bytes → Client → Bool × Client × Option Bytes
unfolding download_file store_download
download_file_to_path file remote_filename c = store_download file (download_file remote_filename c)

unfoldable pub cancel_operation : Client → Client
cancel_operation c = record c { cancelled = true }
