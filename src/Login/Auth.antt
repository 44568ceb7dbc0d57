-- ===== src/Login/Auth.antt =====
-- mecanisms/login/login_manager.cpp: the constructor, authenticate, hashPassword, generateSalt,
-- generateSessionToken, initializeDefaultCredentials, loadCredentials and saveCredentials.
pub mod Cases
pub mod Deadlock
pub mod Lockout
use ur_webif.Base.{
  ℕ, ◌+◌, ◌*◌, ◌/◌, ◌%◌, Bool, true, false, Option, none, some, [], ◌∷◌, ◌++◌, Bytes, codes, Assoc,
  lookup, insert, eqb, ltb, if◌then◌else◌, ℤ, pos, sub_ℕ,
}
use ur_webif.Run.{Call, returns, ◌>>=◌, ◌>>◌, pure, gets, modify, with_lock}
use ur_webif.Login.State.{
  UserCredentials, SessionInfo, LoginResult, LoginManager, Platform, credentials_mutex,
  sessions_mutex, seconds,
}
use ur_webif.Login.Attempts.{is_ip_locked, record_login_attempt, attempt_or_new}

-- One byte in lower-case hexadecimal, two digits wide.
abbrev hex_digit : ℕ → ℕ
hex_digit d = if ltb d 10 then b'0' + d else 87 + d

unfoldable pub hex : Bytes → Bytes
hex [] = []
hex (b ∷ bs) = hex_digit (b / 16) ∷ hex_digit (b % 16) ∷ hex bs

unfoldable pub hash_password : Platform → Bytes → Bytes → Bytes
unfolding hex
hash_password os password salt = hex (os.sha256 (password ++ salt))

-- The clock readings of one call of `authenticate`, in order, and the bytes that the random device
-- gives for the session token.
pub record Readings : Type 0 where
  pub checked_at : ℕ
  pub recorded_at : ℕ
  pub created_at : ℕ
  pub login_at : ℕ
  pub token_bytes : Bytes

unfoldable pub save_credentials : Platform → Call LoginManager Bool
save_credentials os = with_lock credentials_mutex (λ s.
    if os.writable
    then returns true (record s { credentials_file = some (os.encode s.users) })
    else returns false s)

-- The users that `loadCredentials` finds, if the file exists and can be read.
abbrev stored_users : Platform → Option Bytes → Option (Assoc UserCredentials)
stored_users os none = none
stored_users os (some text) = os.decode text

adopt_users : Option (Assoc UserCredentials) → Call LoginManager Bool
adopt_users none s = returns false s
adopt_users (some users) s = returns true (record s { users = users })

unfoldable pub load_credentials : Platform → Call LoginManager Bool
unfolding adopt_users
load_credentials os =
    with_lock credentials_mutex (λ s. adopt_users (stored_users os s.credentials_file) s)

abbrev pub default_user : Platform → Bytes → ℕ → UserCredentials
default_user os salt now = record {
  username = codes "root";
  password_hash = hash_password os (codes "password") salt;
  salt = salt;
  remember_me_enabled = false;
  created_at = now;
  last_login = 0;
}

unfoldable pub initialize_default_credentials : Platform → Bytes → ℕ → Call LoginManager Bool
unfolding hash_password save_credentials
initialize_default_credentials os salt_bytes now = with_lock credentials_mutex do
  modify
      λ s. record s { users = insert (codes "root") (default_user os (hex salt_bytes) now) s.users }
  save_credentials os

-- The constructor, once the configuration is read: an object with the settings and no users.
unfoldable pub construct : Platform → Bytes → ℕ → Call LoginManager (Unit {0})
unfolding load_credentials initialize_default_credentials
construct os salt_bytes now = do
  loaded ← load_credentials os
  if loaded then pure tt else (initialize_default_credentials os salt_bytes now >> pure tt)

abbrev pub refused : Bytes → ℤ → LoginResult
refused message remaining = record {
  success = false;
  message = message;
  session_token = [];
  remaining_attempts = remaining;
}

abbrev pub remaining_attempts : Bytes → LoginManager → ℤ
remaining_attempts client_ip s =
    sub_ℕ s.max_login_attempts (attempt_or_new (lookup client_ip s.login_attempts)).attempts

unfoldable pub fail_login : Bytes → Readings → Call LoginManager LoginResult
unfolding record_login_attempt
fail_login client_ip r = do
  record_login_attempt client_ip false r.recorded_at
  gets λ s. refused (codes "Invalid username or password") (remaining_attempts client_ip s)

abbrev pub new_session : LoginManager → Bytes → Bytes → Bool → ℕ → SessionInfo
new_session s token username remember_me now = record {
  session_token = token;
  username = username;
  created_at = now;
  expires_at =
      now + (if remember_me then seconds (24 * 30 * 3600) else seconds s.session_timeout_seconds);
  remember_me = remember_me;
}

unfoldable pub store_session : Bytes → SessionInfo → Call LoginManager (Unit {0})
store_session token session =
    with_lock sessions_mutex
      (modify λ s. record s { active_sessions = insert token session s.active_sessions })

-- What follows the check of the password.
unfoldable pub accept_login :
    Platform → UserCredentials → Bytes → Bool → Bytes → Readings → Call LoginManager LoginResult
unfolding record_login_attempt store_session save_credentials hex
accept_login os user username remember_me client_ip r = do
  let token = hex r.token_bytes
  record_login_attempt client_ip true r.recorded_at
  session ← gets λ s. new_session s token username remember_me r.created_at
  store_session token session
  modify λ s. record s { users = insert username (record user { last_login = r.login_at }) s.users }
  save_credentials os
  gets λ s. record {
    success = true;
    message = codes "Login successful";
    session_token = token;
    remaining_attempts = pos s.max_login_attempts;
  }

-- The part of `authenticate` under the credentials lock, for the user found.
unfoldable pub check_password :
    Platform
    → Option UserCredentials
    → Bytes
    → Bytes
    → Bool
    → Bytes
    → Readings
    → Call LoginManager LoginResult
unfolding fail_login accept_login
check_password os none username password remember_me client_ip r = fail_login client_ip r
check_password os (some user) username password remember_me client_ip r =
    if eqb (hash_password os password user.salt) user.password_hash
    then accept_login os user username remember_me client_ip r
    else fail_login client_ip r

unfoldable pub authenticate :
    Platform → Bytes → Bytes → Bool → Bytes → Readings → Call LoginManager LoginResult
unfolding is_ip_locked check_password
authenticate os username password remember_me client_ip r = do
  locked ← is_ip_locked client_ip r.checked_at
  if locked
      then (gets λ s.
          refused (codes "Account temporarily locked due to multiple failed attempts")
            (pos s.max_login_attempts))
      else with_lock credentials_mutex (λ s.
        check_password os (lookup username s.users) username password remember_me client_ip r s)
