-- ===== src/Files/Serve/Answers.antt =====
-- What a request for a file is answered with.
use ur_webif.Base.{
  refl, [], ◌||◌, ltb, length, ◌*◌, arith, ℕ, true, false, none, ◌∷◌, ◌++◌, Bytes, ◌≡◌, ◌≢◌, ◌∙◌,
  ap, lookup, is_empty, if◌then◌else◌, find?,
}
use ur_webif.Run.{returns, ◌>>=◌}
use ur_webif.Files.State.{FileServer, Host}
use ur_webif.Files.Path.{dot_dot, full_path}
use ur_webif.Files.Path.Traversal.{sanitize_path-clean}
use ur_webif.Files.Cache.{CacheReadings, read_file}
use ur_webif.Files.Cache.Freshness.{IsReady, fetched, read-uncached}
use ur_webif.Files.Serve.{
  internal_error, file_response, send_file_response, file_path, serve_path, serve_file_with_state,
}

sized :
    (path content : Bytes)
    → (if is_empty content then internal_error else send_file_response path content) ≡ (
        if is_empty content || ltb (100 * 1024 * 1024) (length content)
        then internal_error
        else file_response path content)
unfolding send_file_response
sized path [] = refl
sized path (c ∷ cs) = ground arith

-- What the cache has not: the file is read from the disk.
serve_path-uncached :
    (host : Host) (path : Bytes) (r : CacheReadings) (s : FileServer)
    → IsReady s
    → lookup path s.file_cache ≡ none
    → host.is_regular_file path ≡ true
    → (t : FileServer) × (serve_path host path r s
        ≡ returns
            (if is_empty (read_file host path)
              then internal_error
              else send_file_response path (read_file host path))
            t)
unfolding serve_path
serve_path-uncached host path r s ready absent regular =
    (fetched host path r s, rw regular (rw (read-uncached host path r s ready absent, ◌>>=◌)))

full_path-clean :
    (root : Bytes) (c : ℕ) (rest : Bytes)
    → c ≢ b'/'
    → find? dot_dot (c ∷ rest) ≡ none
    → full_path root (c ∷ rest) ≡ root ++ (b'/' ∷ c ∷ rest)
unfolding full_path
full_path-clean root c rest relative clean =
    ap (λ p. root ++ (b'/' ∷ p)) (sanitize_path-clean c rest relative clean)

file_path-plain :
    (host : Host) (default path : Bytes)
    → host.is_directory path ≡ false
    → file_path host default path ≡ path
unfolding file_path
file_path-plain host default path plain = rw plain

-- With the cache on and no thread inside, a request for a relative path without "../" that names a
-- regular file of the document root, not yet in the cache, is answered with the content of that
-- file; an empty file, and one of more than 100 MiB, is answered with an internal error.
pub serve_file_with_state-clean :
    (host : Host) (c : ℕ) (rest : Bytes) (r : CacheReadings) (s : FileServer)
    → IsReady s
    → c ≢ b'/'
    → find? dot_dot (c ∷ rest) ≡ none
    → host.is_directory (s.document_root ++ (b'/' ∷ c ∷ rest)) ≡ false
    → host.is_regular_file (s.document_root ++ (b'/' ∷ c ∷ rest)) ≡ true
    → lookup (s.document_root ++ (b'/' ∷ c ∷ rest)) s.file_cache ≡ none
    → (t : FileServer) × (serve_file_with_state host (c ∷ rest) r s
        ≡ returns
            (if is_empty (read_file host (s.document_root ++ (b'/' ∷ c ∷ rest)))
                || ltb
                    (100 * 1024 * 1024)
                    (length (read_file host (s.document_root ++ (b'/' ∷ c ∷ rest))))
              then internal_error
              else file_response
                  (s.document_root ++ (b'/' ∷ c ∷ rest))
                  (read_file host (s.document_root ++ (b'/' ∷ c ∷ rest))))
            t)
unfolding serve_file_with_state
serve_file_with_state-clean host c rest r s ready relative clean plain regular absent =
    let path = s.document_root ++ (b'/' ∷ c ∷ rest) in
    let (t, ran) = serve_path-uncached host path r s ready absent regular in
    (
      t,
      ap (λ p. serve_path host (file_path host s.default_file p) r s)
            (full_path-clean s.document_root c rest relative clean)
          ∙ ap (λ p. serve_path host p r s) (file_path-plain host s.default_file path plain)
          ∙ ran
          ∙ ap (λ answer. returns answer t) (sized path (read_file host path)),
    )
