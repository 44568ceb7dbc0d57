-- ===== src/Files/Cache.antt =====
-- src/file_server.cpp: readFile, readFileWithCache, generateETag, clearCache and refreshFile.
pub mod Freshness
use ur_webif.Base.{
  ℕ, Bool, true, false, not, Option, none, some, [], ◌∷◌, ◌++◌, Bytes, codes, lookup, insert, erase,
  length, is_empty, ltb, if◌then◌else◌,
}
use ur_webif.Run.{Call, returns, modify, with_lock}
use ur_webif.Files.State.{CacheEntry, FileServer, Host, cache_mutex, age_in_seconds}

abbrev bytes_or_empty : Option Bytes → Bytes
bytes_or_empty none = []
bytes_or_empty (some bytes) = bytes

abbrev pub read_file : Host → Bytes → Bytes
read_file host path = bytes_or_empty (host.open_file path)

abbrev pub generate_etag : Host → Bytes → Bytes → Bytes
generate_etag host path content =
    codes "\"" ++ (host.hash_text path ++ (codes "-" ++ (host.hash_text content ++ codes "\"")))

-- The clock readings of one call: at the check of the age, when the entry is made and when it is
-- filled.
pub record CacheReadings : Type 0 where
  pub checked_at : ℕ
  pub made_at : ℕ
  pub cached_at : ℕ

-- An entry with what the disk has.
abbrev pub new_entry : Host → Bytes → ℕ → ℕ → CacheEntry
new_entry host path made cached = record {
  content = read_file host path;
  etag = generate_etag host path (read_file host path);
  last_modified = made;
  cache_time = cached;
  file_size = length (read_file host path);
}

-- From "Read file and cache it" on: an empty file is not stored.
unfoldable pub fetch : Host → Bytes → CacheReadings → Call FileServer CacheEntry
fetch host path r s =
    let entry = new_entry host path r.made_at r.cached_at in
    returns entry (
      if not (is_empty entry.content)
      then record s { file_cache = insert path entry s.file_cache }
      else s)

-- Under the lock, with what the cache has for the path.
unfoldable pub serve_cached :
    Host → Bytes → CacheReadings → Option CacheEntry → Call FileServer CacheEntry
unfolding fetch
serve_cached host path r none s = fetch host path r s
serve_cached host path r (some entry) s =
    if ltb (age_in_seconds r.checked_at entry.cache_time) s.cache_max_age
    then returns entry s
    else fetch host path r (record s { file_cache = erase path s.file_cache })

unfoldable pub read_file_with_cache : Host → Bytes → CacheReadings → Call FileServer CacheEntry
unfolding serve_cached
read_file_with_cache host path r s =
    if not s.cache_enabled
    then returns (new_entry host path r.made_at r.made_at) s
    else with_lock cache_mutex (λ s. serve_cached host path r (lookup path s.file_cache) s) s

unfoldable pub clear_cache : Call FileServer (Unit {0})
clear_cache = with_lock cache_mutex (modify λ s. record s { file_cache = [] })

unfoldable pub refresh_file : Bytes → Call FileServer (Unit {0})
refresh_file path =
    with_lock cache_mutex (modify λ s. record s { file_cache = erase path s.file_cache })
