-- ===== src/Tftp/Client/Retry.antt =====
-- Whole downloads: the attempts of download_file.
use native.Mathlib.Numerals.{add-one}
use ur_webif.Base.{
  ℕ, zero, suc, ◌+◌, ◌≤◌, ◌<◌, Bool, true, false, List, [], ◌∷◌, ◌++◌, Bytes, ◌≡◌, refl, ◌∙◌, ap,
  arith, inl, inr, length, codes, to_string,
}
use ur_webif.Tftp.Packet.{TftpPacket, serialize, create_read_request, opcode_error}
use ur_webif.Tftp.Network.{
  no_error, Event, Client, send_packet, notify, completion, update_progress, close_socket,
  server_error, set_error,
}
use ur_webif.Tftp.Client.{
  Download, stop, transfer, on_packet, request_file, attempt_download, run_attempts,
  finish_download, download_file, after_event,
}
use ur_webif.Tftp.Client.Transfer.{arrives, round-arrives, IsReady}
use ur_webif.Tftp.Client.Delivery.{file_events, transfer-stop, transfer-file_events}

-- Sockets open, datagrams go out, the name resolves and nobody has cancelled.
pub record IsOnline (block_size : ℕ) (c : Client) : Type 0 where
  pub size : c.block_size ≡ block_size
  pub sockets : c.socket_answers ≡ []
  pub sends : c.send_answers ≡ []
  pub resolved : c.resolves ≡ true
  pub running : c.cancelled ≡ false

-- The loop's variables after the read request has gone out.
abbrev requested : Bytes → Client → Bytes → Download
requested filename c buffer = record {
  client = record c {
    send_answers = [];
    sent = c.sent ++ (c.server_addr, serialize (create_read_request filename)) ∷ [];
  };
  buffer = buffer;
  expected_block = 1;
  data_server_addr = c.server_addr;
}

request_file-transfer :
    (filename : Bytes) (c : Client) (buffer : Bytes) (success : Bool) (d : Download)
    → c.send_answers ≡ []
    → transfer c.incoming (requested filename c buffer) ≡ (success, d)
    → request_file filename c buffer ≡ (success, d.client, d.buffer)
unfolding request_file send_packet
request_file-transfer filename c buffer success d sends e = ground arith

-- A read request that is answered with the blocks of the file gives the file.
request_file-serves :
    (from bs : ℕ) (filename file : Bytes) (c : Client)
    → 0 < bs
    → bs ≤ 65464
    → IsOnline bs c
    → c.incoming ≡ file_events from bs 1 file
    → (c' : Client) × (request_file filename c [] ≡ (true, c', file))
      × (c'.cancelled ≡ false)
      × (c'.last_error ≡ c.last_error)
request_file-serves from bs filename file c pos limit o answers =
    let start = requested filename c [] in
    let ready : IsReady bs 1 start = record {
      expected = refl;
      size = o.size;
      sends = refl;
      running = o.running;
    } in
    let (d, ran, whole, kept, old) = transfer-file_events from bs file start pos limit ready refl in
    (
      d.client,
      request_file-transfer filename c [] true d o.sends
            (ap (λ es. transfer es start) answers ∙ ran)
          ∙ ap (λ b. (true, d.client, b)) whole,
      kept,
      old,
    )

run_attempts-success :
    (left attempt : ℕ) (filename : Bytes) (c c' : Client) (buffer buffer' : Bytes)
    → c.cancelled ≡ false
    → attempt_download attempt filename c buffer ≡ (true, c', buffer')
    → run_attempts (suc left) attempt filename c buffer ≡ (true, c', buffer')
unfolding run_attempts
run_attempts-success left attempt filename c c' buffer buffer' running e = ground arith

run_attempts-retry :
    (left attempt : ℕ) (filename : Bytes) (c c' : Client) (buffer buffer' : Bytes)
    → c.cancelled ≡ false
    → attempt_download attempt filename c buffer ≡ (false, c', buffer')
    → run_attempts (suc left) attempt filename c buffer
      ≡ run_attempts left (suc attempt) filename c' buffer'
unfolding run_attempts
run_attempts-retry left attempt filename c c' buffer buffer' running e = ground arith

attempts_left :
    (left : ℕ) (filename : Bytes) (c c' : Client) (buffer file : Bytes)
    → 0 < left
    → c.cancelled ≡ false
    → attempt_download 1 filename c buffer ≡ (true, c', file)
    → run_attempts left 1 filename c buffer ≡ (true, c', file)
attempts_left zero filename c c' buffer file h running e = absurd (omega arith)
attempts_left (suc left) filename c c' buffer file h running e =
    run_attempts-success left 1 filename c c' buffer file running e

-- The client with which `download_file` begins its attempts.
abbrev begun : Client → Client
begun c = record c {
  downloading = true;
  cancelled = false;
  connected = false;
  socket_open = true;
  socket_answers = [];
}

-- The client after a download that succeeded.
abbrev finished : Bytes → Client → Client
finished file c =
    notify c.has_completion_callback (completion no_error (codes "Download completed successfully"))
      (update_progress (length file) (length file) (codes "Download complete")
        (record (close_socket c) { downloading = false }))

download_file-attempts :
    (bs : ℕ) (filename file : Bytes) (c c' : Client)
    → IsOnline bs c
    → run_attempts (c.retries + 1) 0 filename (begun c) [] ≡ (true, c', file)
    → c'.cancelled ≡ false
    → (u : Client) × (download_file filename c ≡ (true, u, file))
      × (u.last_error ≡ c'.last_error)
      × (u.downloading ≡ false)
      × (u.socket_open ≡ false)
unfolding download_file finish_download
download_file-attempts bs filename file c c' o e kept =
    (finished file c', ground arith, ground arith, ground arith, ground arith)

-- With a working network and a server that sends the file in blocks of the client's size,
-- `download_file` gives the file, whatever its length; the client is idle again, its socket is
-- closed, and its last error is the one from before.
pub download_file-serves :
    (from bs : ℕ) (filename file : Bytes) (c : Client)
    → 0 < bs
    → bs ≤ 65464
    → IsOnline bs c
    → c.incoming ≡ file_events from bs 1 file
    → (u : Client) × (download_file filename c ≡ (true, u, file))
      × (u.last_error ≡ c.last_error)
      × (u.downloading ≡ false)
      × (u.socket_open ≡ false)
unfolding attempt_download
download_file-serves from bs filename file c pos limit o answers =
    let online : IsOnline bs (begun c) = record {
      size = o.size;
      sockets = refl;
      sends = o.sends;
      resolved = o.resolved;
      running = refl;
    } in
    let (c', served, kept, old) =
      request_file-serves from bs filename file (begun c) pos limit online answers in
    let (u, ran, error, idle, closed) =
      download_file-attempts bs filename file c c' o
        (rw add-one (run_attempts-success c.retries 0 filename (begun c) c' [] file refl served))
        kept in
    (u, ran, error ∙ old, idle, closed)

abbrev pub error_packet : ℕ → Bytes → TftpPacket
error_packet code message = record { opcode = opcode_error; block_number = code; payload = message }

-- The client after an error packet of the server has ended the first attempt.
abbrev refused : ℕ → Bytes → Bytes → List Event → Client → Client
refused code message filename later c =
    set_error (server_error code)
      (codes "TFTP Error " ++ (to_string code ++ (codes ": " ++ message)))
      (record c {
        send_answers = [];
        incoming = later;
        sent = c.sent ++ (c.server_addr, serialize (create_read_request filename)) ∷ [];
      })

on_packet-error :
    (from code : ℕ) (message : Bytes) (d : Download)
    → d.expected_block ≡ 1
    → on_packet (error_packet code message) from d
      ≡ stop false (record d {
        client =
            set_error
              (server_error code)
              (codes "TFTP Error " ++ (to_string code ++ (codes ": " ++ message)))
              d.client;
        data_server_addr = from;
      })
unfolding on_packet
on_packet-error from code message d e = rw e

request_file-error :
    (from code : ℕ) (message filename : Bytes) (later : List Event) (c : Client)
    → code < 65536
    → length message ≤ 65464
    → c.send_answers ≡ []
    → c.cancelled ≡ false
    → c.incoming ≡ arrives from (error_packet code message) ∷ later
    → request_file filename c [] ≡ (false, refused code message filename later c, [])
request_file-error from code message filename later c word l sends running answers =
    let start = requested filename c [] in
    let event = arrives from (error_packet code message) in
    let now = record start { client = after_event event later start.client } in
    request_file-transfer filename c [] false _ sends (
      ap (λ es. transfer es start) answers
      ∙ transfer-stop event later start _ false running (
          round-arrives from (error_packet code message) later start
            (record { kind = inr (inl refl); is_word = word }) l
          ∙ on_packet-error from code message now refl))

attempt_download-retry :
    (filename : Bytes) (c c' : Client) (buffer file : Bytes) (attempt : ℕ)
    → c.socket_answers ≡ []
    → request_file filename (record (close_socket c) { socket_open = true; socket_answers = [] }) []
      ≡ (true, c', file)
    → attempt_download (suc attempt) filename c buffer ≡ (true, c', file)
unfolding attempt_download
attempt_download-retry filename c c' buffer file attempt sockets e = ground arith

attempt_download-first :
    (filename : Bytes) (c c' : Client) (buffer file : Bytes) (success : Bool)
    → request_file filename c buffer ≡ (success, c', file)
    → attempt_download 0 filename c buffer ≡ (success, c', file)
unfolding attempt_download
attempt_download-first filename c c' buffer file success e = e

-- With a working network, an error packet of the server, such as "file not found", does not end the
-- download: with one retry left the client sends the read request again, and when the server then
-- sends the file, the download succeeds. The last error still names the server's error afterwards.
pub download_file-after-error :
    (from bs code : ℕ) (message filename file : Bytes) (c : Client)
    → 0 < bs
    → bs ≤ 65464
    → code < 65536
    → length message ≤ 65464
    → 0 < c.retries
    → IsOnline bs c
    → c.incoming ≡ arrives from (error_packet code message) ∷ file_events from bs 1 file
    → (u : Client) × (download_file filename c ≡ (true, u, file))
      × (u.last_error ≡ server_error code)
download_file-after-error from bs code message filename file c pos limit word l retries o answers =
    let later = file_events from bs 1 file in
    let c1 = refused code message filename later (begun c) in
    let c2 = record (close_socket c1) { socket_open = true; socket_answers = [] } in
    let online : IsOnline bs c2 = record {
      size = o.size;
      sockets = refl;
      sends = refl;
      resolved = o.resolved;
      running = refl;
    } in
    let first =
      attempt_download-first filename (begun c) c1 [] [] false (
        request_file-error from code message filename later (begun c) word l o.sends refl
          answers) in
    let (c', served, kept, old) =
      request_file-serves from bs filename file c2 pos limit online refl in
    let second = attempt_download-retry filename c1 c' [] file 0 refl served in
    let all =
      run_attempts-retry c.retries 0 filename (begun c) c1 [] [] refl first
      ∙ attempts_left c.retries filename c1 c' [] file retries refl second in
    let (u, ran, error, idle, closed) =
      download_file-attempts bs filename file c c' o (rw add-one all) kept in
    (u, ran, error ∙ old)
