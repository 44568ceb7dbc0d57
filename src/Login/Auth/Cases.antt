-- ===== src/Login/Auth/Cases.antt =====
-- The branches of `authenticate` on an object that no thread is inside of.
use ur_webif.Base.{
  ℕ, Bool, true, false, Option, none, some, Bytes, codes, ◌≡◌, refl, arith, lookup, insert, eqb,
  pos,
}
use ur_webif.Run.{returns}
use ur_webif.Login.State.{UserCredentials, LoginManager, Platform, IsIdle}
use ur_webif.Login.Attempts.{
  is_ip_locked, record_login_attempt, count_failure, attempt_or_new, locked_at,
}
use ur_webif.Login.Auth.{
  Readings, authenticate, check_password, fail_login, hash_password, refused, remaining_attempts,
}

-- The password does not fit the user found, or there is no such user.
abbrev pub IsWrong : Platform → Option UserCredentials → Bytes → Type 0
IsWrong os none password = Unit
IsWrong os (some user) password =
    eqb (hash_password os password user.salt) user.password_hash ≡ false

-- The object after a failed login.
abbrev pub with_failure : Bytes → ℕ → LoginManager → LoginManager
with_failure client_ip now s = record s {
  login_attempts =
      insert client_ip (count_failure s now (attempt_or_new (lookup client_ip s.login_attempts)))
        s.login_attempts;
}

pub authenticate-locked :
    (os : Platform) (username password : Bytes) (remember : Bool) (client_ip : Bytes) (r : Readings)
    (s : LoginManager)
    → IsIdle s
    → locked_at r.checked_at (lookup client_ip s.login_attempts) ≡ true
    → authenticate os username password remember client_ip r s
      ≡ returns
          (refused
            (codes "Account temporarily locked due to multiple failed attempts")
            (pos s.max_login_attempts))
          s
unfolding authenticate is_ip_locked
authenticate-locked os username password remember client_ip r s idle h = ground arith

pub is_ip_locked-idle :
    (client_ip : Bytes) (now : ℕ) (s : LoginManager)
    → IsIdle s
    → is_ip_locked client_ip now s ≡ returns (locked_at now (lookup client_ip s.login_attempts)) s
unfolding is_ip_locked
is_ip_locked-idle client_ip now s idle = ground arith

fail_login-idle :
    (client_ip : Bytes) (r : Readings) (s : LoginManager)
    → s.attempts_held ≡ false
    → fail_login client_ip r s
      ≡ returns
          (refused
            (codes "Invalid username or password")
            (remaining_attempts client_ip (with_failure client_ip r.recorded_at s)))
          (with_failure client_ip r.recorded_at s)
unfolding fail_login record_login_attempt
fail_login-idle client_ip r s h = ground arith

check_password-wrong :
    (os : Platform) (found : Option UserCredentials) (username password : Bytes) (remember : Bool)
    (client_ip : Bytes) (r : Readings) (s : LoginManager)
    → IsWrong os found password
    → check_password os found username password remember client_ip r s ≡ fail_login client_ip r s
unfolding check_password
check_password-wrong os none username password remember client_ip r s h = refl
check_password-wrong os (some u) username password remember client_ip r s h = ground arith

pub authenticate-wrong :
    (os : Platform) (username password : Bytes) (remember : Bool) (client_ip : Bytes) (r : Readings)
    (s : LoginManager)
    → IsIdle s
    → locked_at r.checked_at (lookup client_ip s.login_attempts) ≡ false
    → IsWrong os (lookup username s.users) password
    → authenticate os username password remember client_ip r s
      ≡ returns
          (refused
            (codes "Invalid username or password")
            (remaining_attempts client_ip (with_failure client_ip r.recorded_at s)))
          (with_failure client_ip r.recorded_at s)
unfolding authenticate is_ip_locked
authenticate-wrong os username password remember client_ip r s idle h w = ground (
  arith,
  check_password-wrong os (lookup username s.users) username password remember client_ip r
      (record s { credentials_held = true; attempts_held = false }) w,
  fail_login-idle client_ip r (record s { credentials_held = true; attempts_held = false }) refl,
)
