-- ===== src/Examples/Tftp.antt =====
-- Downloads of small files.
use ur_webif.Base.{true, false, List, [], ◌∷◌, Bytes, some, codes, ◌≡◌, refl, arith, inl}
use ur_webif.Tftp.Packet.{empty_packet, serialize, deserialize}
use ur_webif.Tftp.Packet.RoundTrip.{deserialize-serialize}
use ur_webif.Tftp.Network.{disk_full, no_error, server_error, Event, Client}
use ur_webif.Tftp.Client.{Download, download_file}
use ur_webif.Tftp.Client.Transfer.{data_packet, arrives}
use ur_webif.Tftp.Client.Delivery.{last, block, other, Completes, file_events, transfer-Delivers}
use ur_webif.Tftp.Client.Retry.{
  IsOnline, error_packet, download_file-serves, download_file-after-error,
}
use ur_webif.Tftp.Commands.{LocalFile, download_file_to_path}
use ur_webif.Tftp.Commands.Results.{download_file_to_path-serves}

abbrev client : List Event → Client
client events = record {
  retries = 3;
  block_size = 4;
  has_progress_callback = true;
  has_completion_callback = true;
  socket_open = false;
  connected = false;
  downloading = false;
  cancelled = false;
  last_error = no_error;
  last_error_message = [];
  resolves = true;
  server_addr = 1;
  socket_answers = [];
  send_answers = [];
  incoming = events;
  sent = [];
  notices = [];
}

abbrev online : (events : List Event) → IsOnline 4 (client events)
online events = record {
  size = refl;
  sockets = refl;
  sends = refl;
  resolved = refl;
  running = refl;
}

abbrev file : Bytes
file = codes "firmware"

download_file-serves_example :
    (u : Client) × (download_file (codes "fw.bin") (client (file_events 2 4 1 file))
      ≡ (true, u, file))
    × (u.last_error ≡ no_error)
    × (u.downloading ≡ false)
    × (u.socket_open ≡ false)
download_file-serves_example =
    download_file-serves 2 4 (codes "fw.bin") file (client (file_events 2 4 1 file)) (omega arith)
      (omega arith) (online (file_events 2 4 1 file)) refl

abbrev not_found_first : List Event
not_found_first = arrives 2 (error_packet 1 (codes "no such file")) ∷ file_events 2 4 1 file

download_file-after-error_example :
    (u : Client) × (download_file (codes "fw.bin") (client not_found_first) ≡ (true, u, file))
    × (u.last_error ≡ server_error 1)
download_file-after-error_example =
    download_file-after-error 2 4 1 (codes "no such file") (codes "fw.bin") file
      (client not_found_first) (omega arith) (omega arith) (omega arith) (omega arith) (omega arith)
      (online not_found_first) refl

-- The loop behind block 65534; the block number wraps, and block 65534 arrives once more.
abbrev waiting : Download
waiting = record {
  client = client [];
  buffer = codes "...";
  expected_block = 65535;
  data_server_addr = 2;
}

abbrev wrapping : List Event
wrapping =
    arrives 2 (data_packet 65534 (codes "old!"))
    ∷ arrives 2 (data_packet 65535 (codes "abcd"))
    ∷ arrives 2 (data_packet 0 (codes "ef"))
    ∷ []

transfer-Delivers_example : Completes wrapping waiting (codes "abcdef")
transfer-Delivers_example =
    transfer-Delivers waiting
      (other 65534 (codes "old!") (omega arith) (omega arith) (omega arith)
        (block {m = 0} {chunk = codes "abcd"} refl refl (last {chunk = codes "ef"} (omega arith))))
      (record { expected = refl; size = refl; sends = refl; running = refl }) (omega arith)
      (omega arith)

deserialize-serialize_example :
    deserialize empty_packet (serialize (data_packet 258 (codes "data")))
    ≡ (data_packet 258 (codes "data"), true)
deserialize-serialize_example =
    deserialize-serialize (data_packet 258 (codes "data"))
      (record { kind = inl refl; is_word = omega arith })

-- A local disk that runs full.
abbrev full_disk : LocalFile
full_disk = record { opens = true; is_good = false }

download_file_to_path-serves_example :
    (u : Client) × (download_file_to_path full_disk
        (codes "fw.bin")
        (client (file_events 2 4 1 file))
      ≡ (false, u, some file))
    × (u.last_error ≡ disk_full)
download_file_to_path-serves_example =
    download_file_to_path-serves full_disk 2 4 (codes "fw.bin") file
      (client (file_events 2 4 1 file)) (omega arith) (omega arith)
      (online (file_events 2 4 1 file)) refl
