-- ===== src/Credentials/Manager.antt =====
-- src/credential_manager.cpp: authenticate, hashPassword, generateSessionToken, validateSession and
-- invalidateSession.
use ur_webif.Base.{
  ℕ, Bool, true, false, Option, none, some, [], ◌∷◌, ◌++◌, Bytes, codes, to_string, lookup, insert,
  erase, eqb, ◌==◌, is_some, if◌then◌else◌,
}
use ur_webif.Credentials.State.{LoginResult, CredentialManager, Readings, Hasher, milliseconds}
use ur_webif.Credentials.Attempts.{
  record_failed_attempt, clear_failed_attempts, is_user_banned, get_remaining_attempts,
  get_lockout_remaining_seconds,
}

unfoldable pub hash_password : Hasher → Bytes → Bytes → Bytes
hash_password hasher password salt = to_string (hasher (salt ++ password ++ codes "ur-webif-salt"))

unfoldable pub generate_session_token : Bytes → ℕ → ℕ → Bytes
generate_session_token username now number =
    codes "session_"
    ++ to_string (milliseconds now)
    ++ codes "_"
    ++ username
    ++ codes "_"
    ++ to_string number

unfoldable pub validate_session : Bytes → CredentialManager → Bool
validate_session session_token s = is_some (lookup session_token s.active_sessions)

unfoldable pub invalidate_session : Bytes → CredentialManager → CredentialManager
invalidate_session session_token s = record s {
  active_sessions = erase session_token s.active_sessions;
}

-- The result before the checks.
abbrev initial : Bytes → CredentialManager → LoginResult
initial username s = record {
  success = false;
  message = [];
  username = username;
  session_token = [];
  user_data = [];
  attempts_remaining = get_remaining_attempts username s;
  total_attempts = s.max_login_attempts;
  is_banned = false;
  lockout_remaining_seconds = 0;
}

unfoldable pub refuse_banned : Bytes → Readings → LoginResult → CredentialManager → LoginResult
refuse_banned username r result s = record result {
  is_banned = true;
  lockout_remaining_seconds = get_lockout_remaining_seconds username r.locked_at s;
  message = codes "Account temporarily locked due to too many failed attempts. Try again later.";
}

unfoldable pub refuse_unknown :
    Bytes → Readings → LoginResult → CredentialManager → LoginResult × CredentialManager
refuse_unknown username r result s =
    let s' = record_failed_attempt username r.recorded_at s in
    (
      record result {
        message = codes "Username not found";
        attempts_remaining = get_remaining_attempts username s';
      },
      s',
    )

unfoldable pub refuse_wrong :
    Bytes → Readings → LoginResult → CredentialManager → LoginResult × CredentialManager
refuse_wrong username r result s =
    let s' = record_failed_attempt username r.recorded_at s in
    let left = get_remaining_attempts username s' in
    (
      if left == 0
          then record result {
            attempts_remaining = left;
            is_banned = true;
            lockout_remaining_seconds = get_lockout_remaining_seconds username r.locked_at s';
            message = codes "Account temporarily locked due to too many failed attempts";
          }
          else record result { attempts_remaining = left; message = codes "Invalid password" },
      s',
    )

unfoldable pub accept :
    Bytes → Readings → LoginResult → CredentialManager → LoginResult × CredentialManager
unfolding clear_failed_attempts generate_session_token
accept username r result s =
    let token = generate_session_token username r.token_at r.token_number in
    (
      record result {
        success = true;
        message = codes "Authentication successful";
        session_token = token;
        user_data =
            (codes "role", if eqb username (codes "admin") then codes "admin" else codes "user")
            ∷ (codes "login_time", to_string (milliseconds r.login_at))
            ∷ [];
        attempts_remaining = s.max_login_attempts;
      },
      record (clear_failed_attempts username s) {
        active_sessions = insert token username s.active_sessions;
      },
    )

-- The part of `authenticate` behind the check for a lockout.
unfoldable pub check_password :
    Hasher
    → Option Bytes
    → Bytes
    → Bytes
    → Readings
    → LoginResult
    → CredentialManager
    → LoginResult × CredentialManager
check_password hasher none username password r result s = refuse_unknown username r result s
check_password hasher (some stored_hash) username password r result s =
    if eqb stored_hash (hash_password hasher password username)
    then accept username r result s
    else refuse_wrong username r result s

unfoldable pub authenticate :
    Hasher → Bytes → Bytes → Readings → CredentialManager → LoginResult × CredentialManager
unfolding is_user_banned check_password
authenticate hasher username password r s =
    let result = initial username s in
    let (banned, t) = is_user_banned username r.checked_at s in
    if banned
    then (refuse_banned username r result t, t)
    else check_password hasher (lookup username t.credentials) username password r result t
