-- ===== src/Login/Sessions.antt =====
-- mecanisms/login/login_manager.cpp: validateSession, logout, getUsernameFromSession,
-- cleanupExpiredSessions.
pub mod Lifetime
use ur_webif.Base.{
  ℕ, Bool, true, false, not, Option, none, some, Bytes, [], lookup, erase, retain, ltb,
  if◌then◌else◌,
}
use ur_webif.Run.{Call, returns, gets, modify, with_lock}
use ur_webif.Login.State.{SessionInfo, LoginManager, sessions_mutex}

abbrev pub is_expired : ℕ → SessionInfo → Bool
is_expired now session = ltb session.expires_at now

abbrev without_session : Bytes → LoginManager → LoginManager
without_session token s = record s { active_sessions = erase token s.active_sessions }

check_session : Bytes → ℕ → Option SessionInfo → Call LoginManager Bool
check_session token now none s = returns false s
check_session token now (some session) s =
    if is_expired now session then returns false (without_session token s) else returns true s

unfoldable pub validate_session : Bytes → ℕ → Call LoginManager Bool
unfolding check_session
validate_session token now =
    with_lock sessions_mutex (λ s. check_session token now (lookup token s.active_sessions) s)

end_session : Bytes → Option SessionInfo → Call LoginManager Bool
end_session token none s = returns false s
end_session token (some session) s = returns true (without_session token s)

unfoldable pub logout : Bytes → Call LoginManager Bool
unfolding end_session
logout token = with_lock sessions_mutex (λ s. end_session token (lookup token s.active_sessions) s)

abbrev username_of : Option SessionInfo → Bytes
username_of none = []
username_of (some session) = session.username

unfoldable pub get_username_from_session : Bytes → Call LoginManager Bytes
get_username_from_session token =
    with_lock sessions_mutex (gets λ s. username_of (lookup token s.active_sessions))

unfoldable pub cleanup_expired_sessions : ℕ → Call LoginManager (Unit {0})
cleanup_expired_sessions now = with_lock sessions_mutex (
    modify λ s. record s {
      active_sessions = retain (λ session. not (is_expired now session)) s.active_sessions;
    })
