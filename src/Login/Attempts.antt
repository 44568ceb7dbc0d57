-- ===== src/Login/Attempts.antt =====
-- mecanisms/login/login_manager.cpp: isIpLocked, resetLoginAttempts, recordLoginAttempt.
use ur_webif.Base.{
  ℕ, ◌+◌, Bool, true, false, Option, none, some, Bytes, lookup, insert, erase, ltb, leb,
  if◌then◌else◌,
}
use ur_webif.Run.{Call, gets, modify, with_lock}
use ur_webif.Login.State.{LoginAttempt, LoginManager, attempts_mutex, seconds}

-- `LoginAttempt{}`, also what `login_attempts_[client_ip]` makes for a new address.
abbrev pub no_attempts : LoginAttempt
no_attempts = record { attempts = 0; last_attempt = 0; lockout_until = 0 }

abbrev pub attempt_or_new : Option LoginAttempt → LoginAttempt
attempt_or_new none = no_attempts
attempt_or_new (some a) = a

abbrev pub locked_at : ℕ → Option LoginAttempt → Bool
locked_at now none = false
locked_at now (some a) = if ltb now a.lockout_until then true else false

unfoldable pub is_ip_locked : Bytes → ℕ → Call LoginManager Bool
is_ip_locked client_ip now =
    with_lock attempts_mutex (gets λ s. locked_at now (lookup client_ip s.login_attempts))

unfoldable pub reset_login_attempts : Bytes → Call LoginManager (Unit {0})
reset_login_attempts client_ip =
    with_lock attempts_mutex
      (modify λ s. record s { login_attempts = erase client_ip s.login_attempts })

-- `attempt.attempts++` and what follows it.
unfoldable pub count_failure : LoginManager → ℕ → LoginAttempt → LoginAttempt
count_failure s now a = record {
  attempts = a.attempts + 1;
  last_attempt = now;
  lockout_until =
      if leb s.max_login_attempts (a.attempts + 1)
      then now + seconds s.lockout_duration_seconds
      else a.lockout_until;
}

unfoldable pub record_login_attempt : Bytes → Bool → ℕ → Call LoginManager (Unit {0})
unfolding count_failure
record_login_attempt client_ip success now = with_lock attempts_mutex (
    modify λ s.
      let attempt = attempt_or_new (lookup client_ip s.login_attempts) in
      record s {
        login_attempts =
            insert client_ip (if success then no_attempts else count_failure s now attempt)
              s.login_attempts;
      })
