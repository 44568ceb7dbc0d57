-- ===== src/Files/Cache/Freshness.antt =====
-- How old what the cache serves can be.
use ur_webif.Base.{
  true, false, none, some, Bytes, ◌≡◌, refl, arith, lookup, insert, erase, is_empty, ltb,
  if◌then◌else◌, lookup-insert_self, lookup-erase_self, Bool-cases, inl, inr,
}
use ur_webif.Run.{returns, ◌>>=◌, ◌>>◌}
use ur_webif.Files.State.{CacheEntry, FileServer, Host, age_in_seconds}
use ur_webif.Files.Cache.{
  CacheReadings, read_file, new_entry, fetch, serve_cached, read_file_with_cache, refresh_file,
}

-- The cache is on and no thread is inside.
pub record IsReady (s : FileServer) : Type 0 where
  pub enabled : s.cache_enabled ≡ true
  pub free : s.cache_held ≡ false

-- The object once an entry has been stored.
abbrev pub stored : Bytes → CacheEntry → FileServer → FileServer
stored path entry s = record s { file_cache = insert path entry s.file_cache }

-- The object after "Read file and cache it".
abbrev pub fetched : Host → Bytes → CacheReadings → FileServer → FileServer
fetched host path r s =
    if is_empty (read_file host path) then record s { cache_held = false } else record s {
      file_cache = insert path (new_entry host path r.made_at r.cached_at) s.file_cache;
      cache_held = false;
    }

abbrev without_entry : Bytes → FileServer → FileServer
without_entry path s = record s { file_cache = erase path s.file_cache }

pub read-uncached :
    (host : Host) (path : Bytes) (r : CacheReadings) (s : FileServer)
    → IsReady s
    → lookup path s.file_cache ≡ none
    → read_file_with_cache host path r s
      ≡ returns (new_entry host path r.made_at r.cached_at) (fetched host path r s)
unfolding read_file_with_cache serve_cached fetch
read-uncached host path r s ready absent = ground arith

read-miss :
    (host : Host) (path : Bytes) (r : CacheReadings) (s : FileServer)
    → IsReady s
    → lookup path s.file_cache ≡ none
    → is_empty (read_file host path) ≡ false
    → read_file_with_cache host path r s
      ≡ returns
          (new_entry host path r.made_at r.cached_at)
          (stored path (new_entry host path r.made_at r.cached_at) s)
unfolding read_file_with_cache serve_cached fetch
read-miss host path r s ready absent full = ground arith

read-hit :
    (host : Host) (path : Bytes) (r : CacheReadings) (s : FileServer) (entry : CacheEntry)
    → IsReady s
    → lookup path s.file_cache ≡ some entry
    → (e : CacheEntry) × (t : FileServer) × (read_file_with_cache host path r s ≡ returns e t)
      × (e.content ≡ (
          if ltb (age_in_seconds r.checked_at entry.cache_time) s.cache_max_age
          then entry.content
          else read_file host path))
unfolding read_file_with_cache serve_cached fetch
read-hit host path r s entry ready found =
    elim (Bool-cases (ltb (age_in_seconds r.checked_at entry.cache_time) s.cache_max_age)) [
      | inl young ↦ (entry, record s { cache_held = false }, ground arith, ground arith)
      | inr old ↦ (
        new_entry host path r.made_at r.cached_at,
        fetched host path r (without_entry path s),
        ground arith,
        ground arith,
      )
    ]

-- With the cache on and no thread inside, a file with content that has been read into the cache is
-- served from it, whatever the disk holds by then, until the maximal age is reached in whole
-- seconds; from then on the next read gives what the disk holds.
pub read_file_with_cache-age :
    (host host' : Host) (path : Bytes) (r r' : CacheReadings) (s : FileServer)
    → IsReady s
    → lookup path s.file_cache ≡ none
    → is_empty (read_file host path) ≡ false
    → (e : CacheEntry) × (t : FileServer) × ((read_file_with_cache host path r
            >> read_file_with_cache host' path r')
          s
        ≡ returns e t)
      × (e.content ≡ (
          if ltb (age_in_seconds r'.checked_at r.cached_at) s.cache_max_age
          then read_file host path
          else read_file host' path))
read_file_with_cache-age host host' path r r' s ready absent full =
    let entry = new_entry host path r.made_at r.cached_at in
    let u = stored path entry s in
    let ready' : IsReady u = record { enabled = ready.enabled; free = ready.free } in
    let (e, t, ran, same) =
      read-hit host' path r' u entry ready' (lookup-insert_self path entry s.file_cache) in
    (e, t, rw (read-miss host path r s ready absent full, ◌>>=◌) ran, same)

-- With no thread inside, after `refreshFile` the next read gives what the disk holds, whatever the
-- cache had.
read_file_with_cache-refresh :
    (host : Host) (path : Bytes) (r : CacheReadings) (s : FileServer)
    → s.cache_held ≡ false
    → (e : CacheEntry) × (t : FileServer) × ((refresh_file path >> read_file_with_cache host path r)
          s
        ≡ returns e t)
      × (e.content ≡ read_file host path)
unfolding read_file_with_cache serve_cached fetch refresh_file
read_file_with_cache-refresh host path r s free = elim (Bool-cases s.cache_enabled) [
  | inl on ↦ (
    new_entry host path r.made_at r.cached_at,
    fetched host path r (without_entry path s),
    ground (arith, lookup-erase_self path s.file_cache),
    refl,
  )
  | inr off ↦ (
    new_entry host path r.made_at r.made_at,
    record (without_entry path s) { cache_held = false },
    ground arith,
    refl,
  )
]
