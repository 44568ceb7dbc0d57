-- ===== src/Login/State.antt =====
-- mecanisms/login/login_manager.hpp: the structs and the members of LoginManager.
-- A steady-clock time point is a number of nanoseconds; a default one is 0.
use ur_webif.Base.{ℕ, ◌*◌, Bool, false, ◌≡◌, Option, Bytes, Assoc, ℤ}
use ur_webif.Run.{Mutex}

pub record LoginAttempt : Type 0 where
  pub attempts : ℕ
  pub last_attempt : ℕ
  pub lockout_until : ℕ

pub record UserCredentials : Type 0 where
  pub username : Bytes
  pub password_hash : Bytes
  pub salt : Bytes
  pub remember_me_enabled : Bool
  pub created_at : ℕ
  pub last_login : ℕ

pub record SessionInfo : Type 0 where
  pub session_token : Bytes
  pub username : Bytes
  pub created_at : ℕ
  pub expires_at : ℕ
  pub remember_me : Bool

pub record LoginResult : Type 0 where
  pub success : Bool
  pub message : Bytes
  pub session_token : Bytes
  pub remaining_attempts : ℤ

-- The last three fields are the mutexes. `credentials_file` is the text last written to the
-- credentials file. The three settings are taken to be at least 0.
pub record LoginManager : Type 0 where
  pub users : Assoc UserCredentials
  pub active_sessions : Assoc SessionInfo
  pub login_attempts : Assoc LoginAttempt
  pub credentials_file : Option Bytes
  pub session_timeout_seconds : ℕ
  pub max_login_attempts : ℕ
  pub lockout_duration_seconds : ℕ
  pub credentials_held : Bool
  pub sessions_held : Bool
  pub attempts_held : Bool

abbrev pub credentials_mutex : Mutex LoginManager
credentials_mutex = record {
  is_held = λ s. s.credentials_held;
  set_held = λ b s. record s { credentials_held = b };
}

abbrev pub sessions_mutex : Mutex LoginManager
sessions_mutex = record {
  is_held = λ s. s.sessions_held;
  set_held = λ b s. record s { sessions_held = b };
}

abbrev pub attempts_mutex : Mutex LoginManager
attempts_mutex = record {
  is_held = λ s. s.attempts_held;
  set_held = λ b s. record s { attempts_held = b };
}

-- `std::chrono::seconds` as clock ticks.
abbrev pub seconds : ℕ → ℕ
seconds n = n * 1000000000

-- No thread is inside a method.
pub record IsIdle (s : LoginManager) : Type 0 where
  pub credentials_free : s.credentials_held ≡ false
  pub sessions_free : s.sessions_held ≡ false
  pub attempts_free : s.attempts_held ≡ false

-- What the class takes from OpenSSL, the JSON library, the disk and the random device.
-- `sha256` is the digest; `encode` is the encrypted JSON text of the users; `decode` is what
-- `loadCredentials` reads from such a text, or `none` where it fails; `writable` says whether the
-- credentials file opens for writing.
pub record Platform : Type 0 where
  pub sha256 : Bytes → Bytes
  pub encode : Assoc UserCredentials → Bytes
  pub decode : Bytes → Option (Assoc UserCredentials)
  pub writable : Bool
