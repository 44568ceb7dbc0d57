-- ===== src/Files/Serve.antt =====
-- src/file_server.cpp: serveFileWithState and servePageWithTransaction, up to the response.
pub mod Answers
use ur_webif.Base.{
  ℕ, Bool, true, false, not, Option, [], ◌∷◌, ◌++◌, Bytes, codes, is_empty, if◌then◌else◌, ◌==◌,
  ltb, length, ◌*◌,
}
use ur_webif.Run.{Call, returns, ◌>>=◌, ◌>>◌, pure, gets}
use ur_webif.Files.State.{CacheEntry, FileServer, Host}
use ur_webif.Files.Path.{full_path}
use ur_webif.Files.Cache.{CacheReadings, read_file_with_cache}
use ur_webif.Files.Transactions.{create_page_transaction, clear_expired_transactions}

-- sendNotFound, sendInternalError, and the response that sendFileResponse makes of the path and the
-- content, where the HTTP library makes one.
pub data Response : Type 0 where
  not_found internal_error : Response
  file_response : Bytes → Bytes → Response

-- sendFileResponse
unfoldable pub send_file_response : Bytes → Bytes → Response
send_file_response path content =
    if ltb (100 * 1024 * 1024) (length content)
    then internal_error
    else if is_empty content
    then not_found
    else file_response path content

-- Whether the last character is a slash.
abbrev ends_in_slash : Bytes → Bool
ends_in_slash [] = false
ends_in_slash (c ∷ []) = c == b'/'
ends_in_slash (c ∷ d ∷ cs) = ends_in_slash (d ∷ cs)

-- For a directory, the path of its default file.
unfoldable pub file_path : Host → Bytes → Bytes → Bytes
file_path host default_file path =
    if host.is_directory path
    then (if ends_in_slash path then path else path ++ b'/' ∷ []) ++ default_file
    else path

unfoldable pub serve_path : Host → Bytes → CacheReadings → Call FileServer Response
unfolding read_file_with_cache send_file_response
serve_path host path r = if not (host.is_regular_file path) then pure not_found else (do
  entry ← read_file_with_cache host path r
  pure (if is_empty entry.content then internal_error else send_file_response path entry.content))

unfoldable pub serve_file_with_state : Host → Bytes → CacheReadings → Call FileServer Response
unfolding full_path file_path serve_path
serve_file_with_state host requested_path r s =
    serve_path host (file_path host s.default_file (full_path s.document_root requested_path)) r s

-- The clock readings and the random number of the transaction come first.
unfoldable pub serve_page_with_transaction :
    Host → Bytes → Bytes → Bytes → ℕ → ℕ → ℕ → CacheReadings → Call FileServer Response
unfolding clear_expired_transactions create_page_transaction serve_file_with_state
serve_page_with_transaction host requested_path session_token user_id cleared_at created_at random
      r =
    do
      clear_expired_transactions cleared_at
      create_page_transaction session_token user_id (codes "previous") requested_path
          (not (is_empty session_token)) created_at random
      serve_file_with_state host requested_path r
