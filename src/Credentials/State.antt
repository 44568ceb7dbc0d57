-- ===== src/Credentials/State.antt =====
-- include/credential_manager.h: the structs and the members of CredentialManager.
-- A system-clock time point is a number of nanoseconds since the epoch.
use ur_webif.Base.{ℕ, ◌*◌, ◌/◌, Bool, Option, Bytes, Assoc}

pub record FailedAttempt : Type 0 where
  pub count : ℕ
  pub last_attempt : ℕ
  pub lockout_until : ℕ

pub record LoginResult : Type 0 where
  pub success : Bool
  pub message : Bytes
  pub username : Bytes
  pub session_token : Bytes
  pub user_data : Assoc Bytes
  pub attempts_remaining : ℕ
  pub total_attempts : ℕ
  pub is_banned : Bool
  pub lockout_remaining_seconds : ℕ

-- `credentials_file` is the text of the credentials file, if there is one. The settings are the
-- values that `config_` has under their names, taken to be numbers of at least 0.
pub record CredentialManager : Type 0 where
  pub credentials : Assoc Bytes
  pub active_sessions : Assoc Bytes
  pub failed_attempts : Assoc FailedAttempt
  pub max_login_attempts : ℕ
  pub lockout_duration : ℕ
  pub credentials_file : Option Bytes

abbrev pub seconds : ℕ → ℕ
seconds n = n * 1000000000

-- `duration_cast<milliseconds>(now.time_since_epoch()).count()`
abbrev pub milliseconds : ℕ → ℕ
milliseconds now = now / 1000000

-- The clock readings of one call of `authenticate`, in order, and the number from 100000 to 999999
-- that the random device gives for the session token.
pub record Readings : Type 0 where
  pub checked_at : ℕ
  pub recorded_at : ℕ
  pub locked_at : ℕ
  pub token_at : ℕ
  pub login_at : ℕ
  pub token_number : ℕ

-- `std::hash<std::string>`.
abbrev pub Hasher : Type 0
Hasher = Bytes → ℕ
