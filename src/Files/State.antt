-- ===== src/Files/State.antt =====
-- include/file_server.h: CacheEntry, PageTransaction and the members of FileServer.
-- A steady-clock time point is a number of nanoseconds.
use ur_webif.Base.{ℕ, ◌-◌, ◌/◌, Bool, Option, Bytes, Assoc}
use ur_webif.Run.{Mutex}

pub record CacheEntry : Type 0 where
  pub content : Bytes
  pub etag : Bytes
  pub last_modified : ℕ
  pub cache_time : ℕ
  pub file_size : ℕ

pub record PageTransaction : Type 0 where
  pub session_token : Bytes
  pub user_id : Bytes
  pub source_page : Bytes
  pub target_page : Bytes
  pub requires_auth : Bool
  pub timestamp : ℕ

-- `cache_max_age` is taken to be at least 0; the last field of each pair is a mutex.
pub record FileServer : Type 0 where
  pub document_root : Bytes
  pub default_file : Bytes
  pub cache_enabled : Bool
  pub cache_max_age : ℕ
  pub file_cache : Assoc CacheEntry
  pub cache_held : Bool
  pub active_transactions : Assoc PageTransaction
  pub transaction_held : Bool

abbrev pub cache_mutex : Mutex FileServer
cache_mutex = record { is_held = λ s. s.cache_held; set_held = λ b s. record s { cache_held = b } }

abbrev pub transaction_mutex : Mutex FileServer
transaction_mutex = record {
  is_held = λ s. s.transaction_held;
  set_held = λ b s. record s { transaction_held = b };
}

-- `duration_cast<seconds>(now - since).count()`; the clock never goes back.
abbrev pub age_in_seconds : ℕ → ℕ → ℕ
age_in_seconds now since = (now - since) / 1000000000

-- What the class takes from the file system and the standard library: which paths are directories
-- and regular files, the bytes of a file that can be opened, and the text of `std::hex <<
-- hasher(text)`.
pub record Host : Type 0 where
  pub is_directory : Bytes → Bool
  pub is_regular_file : Bytes → Bool
  pub open_file : Bytes → Option Bytes
  pub hash_text : Bytes → Bytes
