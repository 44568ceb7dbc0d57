-- ===== src/Login/Auth/Deadlock.antt =====
-- `saveCredentials` locks the mutex that its callers `authenticate` and
-- `initializeDefaultCredentials` hold.
use ur_webif.Base.{
  ℕ, Bool, true, false, none, some, Bytes, codes, ◌≡◌, refl, arith, lookup, insert, eqb,
}
use ur_webif.Run.{blocked, state_after}
use ur_webif.Login.State.{UserCredentials, LoginManager, Platform, IsIdle}
use ur_webif.Login.Attempts.{is_ip_locked, record_login_attempt, locked_at, no_attempts}
use ur_webif.Login.Auth.{
  Readings, authenticate, check_password, accept_login, hash_password, new_session, hex,
  save_credentials, store_session, construct, load_credentials, initialize_default_credentials,
  default_user,
}

-- The object while the thread that logged in waits: the session is stored, the failures of the
-- address are forgotten, and the credentials mutex stays locked.
abbrev pub stuck_login :
    UserCredentials → Bytes → Bool → Bytes → Readings → LoginManager → LoginManager
stuck_login user username remember client_ip r s = record s {
  users = insert username (record user { last_login = r.login_at }) s.users;
  active_sessions =
      insert (hex r.token_bytes) (new_session s (hex r.token_bytes) username remember r.created_at)
        s.active_sessions;
  login_attempts = insert client_ip no_attempts s.login_attempts;
  credentials_held = true;
}

accept_login-blocked :
    (os : Platform) (user : UserCredentials) (username : Bytes) (remember : Bool)
    (client_ip : Bytes) (r : Readings) (s : LoginManager)
    → s.credentials_held ≡ true
    → s.attempts_held ≡ false
    → s.sessions_held ≡ false
    → accept_login os user username remember client_ip r s
      ≡ blocked (stuck_login user username remember client_ip r s)
unfolding accept_login record_login_attempt store_session save_credentials
accept_login-blocked os user username remember client_ip r s hc ha hs = ground arith

-- A login with the right password from an address that is not locked out never returns: its thread
-- waits for the credentials mutex that it holds itself, with the new session already stored.
pub authenticate-right :
    (os : Platform) (username password : Bytes) (remember : Bool) (client_ip : Bytes) (r : Readings)
    (s : LoginManager) (user : UserCredentials)
    → IsIdle s
    → locked_at r.checked_at (lookup client_ip s.login_attempts) ≡ false
    → lookup username s.users ≡ some user
    → eqb (hash_password os password user.salt) user.password_hash ≡ true
    → authenticate os username password remember client_ip r s
      ≡ blocked (stuck_login user username remember client_ip r s)
unfolding authenticate is_ip_locked check_password
authenticate-right os username password remember client_ip r s user idle h found right = ground (
  arith,
  accept_login-blocked os user username remember client_ip r
      (record s { credentials_held = true; attempts_held = false }) refl refl,
)

-- While the credentials mutex is locked, each login from an address that is not locked out waits.
pub authenticate-held :
    (os : Platform) (username password : Bytes) (remember : Bool) (client_ip : Bytes) (r : Readings)
    (s : LoginManager)
    → s.credentials_held ≡ true
    → s.attempts_held ≡ false
    → locked_at r.checked_at (lookup client_ip s.login_attempts) ≡ false
    → authenticate os username password remember client_ip r s ≡ blocked s
unfolding authenticate is_ip_locked
authenticate-held os username password remember client_ip r s hc ha h = ground arith

-- After one login with the right password, with no thread inside and from an address that is not
-- locked out, no login from an address that is not locked out
-- returns, whatever its user name, password, clock readings and random bytes are: it waits and
-- changes nothing.
pub authenticate-after-right :
    (os : Platform) (username password : Bytes) (remember : Bool) (client_ip : Bytes) (r : Readings)
    (s : LoginManager) (user : UserCredentials)
    → IsIdle s
    → locked_at r.checked_at (lookup client_ip s.login_attempts) ≡ false
    → lookup username s.users ≡ some user
    → eqb (hash_password os password user.salt) user.password_hash ≡ true
    → (username' password' : Bytes) (remember' : Bool) (client_ip' : Bytes) (r' : Readings)
    → locked_at r'.checked_at
        (lookup client_ip' (stuck_login user username remember client_ip r s).login_attempts)
      ≡ false
    → authenticate os username' password' remember' client_ip' r'
        (state_after (authenticate os username password remember client_ip r s))
      ≡ blocked (stuck_login user username remember client_ip r s)
authenticate-after-right os username password remember client_ip r s user idle h found right
      username' password' remember' client_ip' r' h' =
    rw (authenticate-right os username password remember client_ip r s user idle h found right) (
      authenticate-held os username' password' remember' client_ip' r'
        (stuck_login user username remember client_ip r s) refl idle.attempts_free h')

-- Without a credentials file, and with no thread inside, the constructor never returns: it waits
-- for the mutex that `initializeDefaultCredentials` holds, and nothing is written to the file.
pub construct-no_file :
    (os : Platform) (salt : Bytes) (now : ℕ) (s : LoginManager)
    → IsIdle s
    → s.credentials_file ≡ none
    → construct os salt now s
      ≡ blocked (record s {
        users = insert (codes "root") (default_user os (hex salt) now) s.users;
        credentials_held = true;
      })
unfolding construct load_credentials initialize_default_credentials save_credentials
construct-no_file os salt now s idle h = ground arith
