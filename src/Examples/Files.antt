-- ===== src/Examples/Files.antt =====
-- Paths as a client may send them.
use ur_webif.Base.{
  ◌∷◌, Bytes, [], ◌++◌, codes, ◌≡◌, refl, arith, find?, ℕ, ◌*◌, true, false, some, lookup,
}
use ur_webif.Run.{returns, ◌>>=◌, ◌>>◌}
use ur_webif.Files.State.{CacheEntry, PageTransaction, FileServer, Host}
use ur_webif.Files.Cache.{CacheReadings, read_file_with_cache}
use ur_webif.Files.Cache.Freshness.{IsReady, read_file_with_cache-age}
use ur_webif.Files.Transactions.{create_page_transaction, validate_page_transaction}
use ur_webif.Files.Transactions.Expiry.{validate_page_transaction-create}
use ur_webif.Files.Serve.{file_response, serve_file_with_state}
use ur_webif.Files.Serve.Answers.{serve_file_with_state-clean}
use ur_webif.Files.Path.{full_path}
use ur_webif.Files.Path.Traversal.{full_path-traversal}

full_path-traversal_example :
    full_path (codes "/www") (codes "....//" ++ codes "passwd") ≡ codes "/www/../passwd"
unfolding find?
full_path-traversal_example = full_path-traversal (codes "/www") b'p' (codes "asswd") refl

-- A disk on which every file has the given content.
abbrev disk : Bytes → Host
disk content = record {
  is_directory = λ path. false;
  is_regular_file = λ path. true;
  open_file = λ path. some content;
  hash_text = λ text. text;
}

abbrev transaction : PageTransaction
transaction = record {
  session_token = codes "t1";
  user_id = codes "ann";
  source_page = codes "previous";
  target_page = codes "/main.html";
  requires_auth = true;
  timestamp = 5000000000;
}

abbrev server : FileServer
server = record {
  document_root = codes "/www";
  default_file = codes "index.html";
  cache_enabled = true;
  cache_max_age = 300;
  file_cache = [];
  cache_held = false;
  active_transactions = (codes "x", transaction) ∷ [];
  transaction_held = false;
}

abbrev ready : IsReady server
ready = record { enabled = refl; free = refl }

abbrev at_second : ℕ → CacheReadings
at_second t = record {
  checked_at = t * 1000000000;
  made_at = t * 1000000000;
  cached_at = t * 1000000000;
}

read_file_with_cache-age_example :
    (e : CacheEntry) × (t : FileServer) × ((read_file_with_cache
            (disk (codes "old"))
            (codes "/www/a")
            (at_second 10)
          >> read_file_with_cache (disk (codes "new")) (codes "/www/a") (at_second 310))
        server
      ≡ returns e t)
    × (e.content ≡ codes "new")
unfolding lookup
read_file_with_cache-age_example =
    read_file_with_cache-age (disk (codes "old")) (disk (codes "new")) (codes "/www/a")
      (at_second 10) (at_second 310) server ready refl refl

validate_page_transaction-create_example :
    (t : FileServer) × ((create_page_transaction
            (codes "t1")
            (codes "ann")
            (codes "previous")
            (codes "/a")
            true
            1000000000
            123456
          >>= λ id. validate_page_transaction id 31999999999)
        server
      ≡ returns true t)
validate_page_transaction-create_example =
    validate_page_transaction-create (codes "t1") (codes "ann") (codes "previous") (codes "/a") true
      1000000000 123456 31999999999 server refl

serve_file_with_state-clean_example :
    (t : FileServer) × (serve_file_with_state
        (disk (codes "hi"))
        (codes "main.css")
        (at_second 10)
        server
      ≡ returns (file_response (codes "/www/main.css") (codes "hi")) t)
unfolding lookup find?
serve_file_with_state-clean_example =
    serve_file_with_state-clean (disk (codes "hi")) b'm' (codes "ain.css") (at_second 10) server
      ready (omega arith) refl refl refl refl
