-- ===== src/Credentials/Attempts.antt =====
-- src/credential_manager.cpp: recordFailedAttempt, clearFailedAttempts, isUserBanned,
-- getRemainingAttempts and getLockoutRemainingSeconds.
use ur_webif.Base.{
  ℕ, ◌+◌, ◌-◌, ◌/◌, Bool, false, ◌&&◌, not, Option, none, some, Bytes, lookup, insert, erase, ltb,
  leb, if◌then◌else◌,
}
use ur_webif.Credentials.State.{FailedAttempt, CredentialManager, seconds}

-- The entry that is found or made.
abbrev pub attempt_or_new : ℕ → Option FailedAttempt → FailedAttempt
attempt_or_new now none = record { count = 0; last_attempt = now; lockout_until = now }
attempt_or_new now (some a) = a

-- `count++` and what follows it.
abbrev pub count_failure : CredentialManager → ℕ → FailedAttempt → FailedAttempt
count_failure s now a = record {
  count = a.count + 1;
  last_attempt = now;
  lockout_until =
      if leb s.max_login_attempts (a.count + 1)
      then now + seconds s.lockout_duration
      else a.lockout_until;
}

unfoldable pub record_failed_attempt : Bytes → ℕ → CredentialManager → CredentialManager
record_failed_attempt username now s = record s {
  failed_attempts =
      insert username (count_failure s now (attempt_or_new now (lookup username s.failed_attempts)))
        s.failed_attempts;
}

unfoldable pub clear_failed_attempts : Bytes → CredentialManager → CredentialManager
clear_failed_attempts username s = record s { failed_attempts = erase username s.failed_attempts }

-- The answer for the entry found.
abbrev pub banned_at : ℕ → Option FailedAttempt → Bool
banned_at now none = false
banned_at now (some a) = ltb now a.lockout_until

-- Whether all attempts of the entry found are used up.
abbrev pub used_up : ℕ → Option FailedAttempt → Bool
used_up max_attempts none = false
used_up max_attempts (some a) = leb max_attempts a.count

unfoldable pub is_user_banned : Bytes → ℕ → CredentialManager → Bool × CredentialManager
unfolding clear_failed_attempts
is_user_banned username now s =
    let found = lookup username s.failed_attempts in
    let banned = banned_at now found in
    (
      banned,
      if not banned && used_up s.max_login_attempts found
          then clear_failed_attempts username s
          else s,
    )

abbrev pub remaining_of : ℕ → Option FailedAttempt → ℕ
remaining_of max_attempts none = max_attempts
remaining_of max_attempts (some a) = max_attempts - a.count

unfoldable pub get_remaining_attempts : Bytes → CredentialManager → ℕ
get_remaining_attempts username s =
    remaining_of s.max_login_attempts (lookup username s.failed_attempts)

abbrev seconds_left : ℕ → Option FailedAttempt → ℕ
seconds_left now none = 0
seconds_left now (some a) =
    if leb a.lockout_until now then 0 else (a.lockout_until - now) / 1000000000

unfoldable pub get_lockout_remaining_seconds : Bytes → ℕ → CredentialManager → ℕ
get_lockout_remaining_seconds username now s = seconds_left now (lookup username s.failed_attempts)
