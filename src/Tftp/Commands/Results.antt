-- ===== src/Tftp/Commands/Results.antt =====
-- What the commands of the TFTP client answer.
use ur_webif.Base.{
  ℕ, ◌≤◌, ◌<◌, true, false, none, some, List, [], ◌∷◌, Bytes, ◌≡◌, refl, ◌∙◌, ap, arith, codes,
  Bool-cases, inl, inr, ◌++◌, length, if◌then◌else◌,
}
use ur_webif.Tftp.Packet.{TftpPacket, serialize, create_read_request}
use ur_webif.Tftp.Packet.RoundTrip.{IsReply}
use ur_webif.Tftp.Network.{
  TftpError, set_error, connection_failed, access_violation, disk_full, Event, Client,
  create_socket, resolve_server, send_packet, receive_packet,
}
use ur_webif.Tftp.Client.{after_event}
use ur_webif.Tftp.Client.Transfer.{arrives, receive_packet-arrives}
use ur_webif.Tftp.Client.Delivery.{file_events}
use ur_webif.Tftp.Client.Retry.{IsOnline, download_file-serves}
use ur_webif.Tftp.Commands.{
  LocalFile, receive_next, conclude, test_connection, store_download, download_file_to_path,
}

-- The client with which `test_connection` waits for an answer.
abbrev asking : Client → Client
asking c = record c {
  connected = false;
  socket_open = true;
  socket_answers = [];
  send_answers = [];
  sent =
      c.sent ++ (c.server_addr, serialize (create_read_request (codes "__test_connection__"))) ∷ [];
}

test_connection-asking :
    (bs : ℕ) (c : Client)
    → IsOnline bs c
    → test_connection c ≡ conclude (receive_next c.incoming (asking c))
unfolding test_connection create_socket resolve_server send_packet
test_connection-asking bs c o = ground arith

-- With a working network, any data, acknowledgment or error packet that fits a datagram makes the
-- connection test succeed, "file not found" included. The socket is closed afterwards.
test_connection-answer :
    (bs from : ℕ) (p : TftpPacket) (later : List Event) (c : Client)
    → IsOnline bs c
    → IsReply p
    → length p.payload ≤ 65464
    → c.incoming ≡ arrives from p ∷ later
    → (u : Client) × (test_connection c ≡ (u, true))
      × (u.connected ≡ true)
      × (u.socket_open ≡ false)
unfolding conclude
test_connection-answer bs from p later c o reply l answers = (
  _,
  test_connection-asking bs c o
      ∙ ap (λ es. conclude (receive_next es (asking c))) answers
      ∙ ap conclude
          (receive_packet-arrives from p (after_event (arrives from p) later (asking c)) reply l),
  refl,
  refl,
)

-- With a working network but without an answer, the connection test fails, with its own error and a
-- closed socket.
test_connection-silent :
    (bs : ℕ) (c : Client)
    → IsOnline bs c
    → c.incoming ≡ []
    → (u : Client) × (test_connection c ≡ (u, false))
      × (u.connected ≡ false)
      × (u.socket_open ≡ false)
      × (u.last_error ≡ connection_failed)
unfolding receive_packet conclude
test_connection-silent bs c o silent = (
  _,
  test_connection-asking bs c o ∙ ap (λ es. conclude (receive_next es (asking c))) silent,
  refl,
  refl,
  refl,
)

store_download-cases :
    (local : LocalFile) (c : Client) (file : Bytes) (error : TftpError)
    → c.last_error ≡ error
    → (u : Client) × (store_download local (true, c, file) ≡ (
      if local.opens then local.is_good else false,
      u,
      if local.opens then some file else none,
    ))
      × (u.last_error ≡ (
          if local.opens then (if local.is_good then error else disk_full) else access_violation))
unfolding store_download
store_download-cases local c file error same = elim (Bool-cases local.opens) [
  | inr closed ↦
      (set_error access_violation (codes "Cannot create local file") c, ground arith, ground arith)
  | inl opens ↦ elim (Bool-cases local.is_good) [
    | inl good ↦ (c, ground arith, ground arith)
    | inr bad ↦
        (set_error disk_full (codes "Failed to write to local file") c, ground arith, ground arith)
  ]
]

-- With a working network and a server that sends the file in blocks of the client's size, the local
-- file is given exactly the bytes of the remote file, if it opens, and the result tells whether the
-- write went well; the last error names a file that does not open, or a write that failed.
pub download_file_to_path-serves :
    (local : LocalFile) (from bs : ℕ) (filename file : Bytes) (c : Client)
    → 0 < bs
    → bs ≤ 65464
    → IsOnline bs c
    → c.incoming ≡ file_events from bs 1 file
    → (u : Client) × (download_file_to_path local filename c ≡ (
      if local.opens then local.is_good else false,
      u,
      if local.opens then some file else none,
    ))
      × (u.last_error ≡ (
          if local.opens
          then (if local.is_good then c.last_error else disk_full)
          else access_violation))
unfolding download_file_to_path
download_file_to_path-serves local from bs filename file c pos limit o answers =
    let (u, ran, error, idle, closed) =
      download_file-serves from bs filename file c pos limit o answers in
    let (v, stored, last) = store_download-cases local u file c.last_error error in
    (v, ap (store_download local) ran ∙ stored, last)
