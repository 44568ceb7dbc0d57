-- ===== src/Login/Sessions/Lifetime.antt =====
-- How long a session token is good.
use ur_webif.Base.{
  eqb_iff, ℕ, Bool, false, not, Option, none, some, Bytes, ◌≡◌, ◌∙◌, arith, lookup, insert, erase,
  retain, IsMap, lookup-retain, lookup-insert_self, lookup-erase_self, lookup-erase, leb,
  if◌then◌else◌, Option-cases, Bool-cases, is_some, ap, ◌+◌, inl, inr, eqb,
}
use ur_webif.Run.{Call, returns, ◌>>=◌, ◌>>◌}
use ur_webif.Login.State.{SessionInfo, LoginManager, IsIdle, seconds}
use ur_webif.Login.Sessions.{is_expired, validate_session, logout, cleanup_expired_sessions}
use ur_webif.Login.Auth.{store_session, new_session}

-- Whether a token has a session that has not run out.
abbrev pub is_live : ℕ → Option SessionInfo → Bool
is_live now none = false
is_live now (some session) = leb now session.expires_at

-- The object without the session of the token, if that has run out.
abbrev pub drop_if_expired : Bytes → ℕ → Option SessionInfo → LoginManager → LoginManager
drop_if_expired token now none s = s
drop_if_expired token now (some session) s =
    if leb now session.expires_at
    then s
    else record s { active_sessions = erase token s.active_sessions }

-- `validateSession` accepts exactly the tokens of sessions that have not run out; it removes a
-- session that has, and changes nothing else.
pub validate_session-idle :
    (token : Bytes) (now : ℕ) (s : LoginManager)
    → IsIdle s
    → validate_session token now s
      ≡ returns
          (is_live now (lookup token s.active_sessions))
          (drop_if_expired token now (lookup token s.active_sessions) s)
unfolding validate_session
validate_session-idle token now s idle = elim (Option-cases (lookup token s.active_sessions)) [
  | inl missing ↦ rw (missing, validate_session) (ground arith)
  | inr (session, found) ↦ rw (found, validate_session) (ground arith)
]

-- The object after `cleanupExpiredSessions`.
abbrev cleaned : ℕ → LoginManager → LoginManager
cleaned now s = record s {
  active_sessions = retain (λ session. not (is_expired now session)) s.active_sessions;
}

cleanup-idle :
    (now : ℕ) (s : LoginManager)
    → IsIdle s
    → cleanup_expired_sessions now s ≡ returns tt (cleaned now s)
unfolding cleanup_expired_sessions
cleanup-idle now s idle = ground arith

lookup-cleaned :
    (token : Bytes) (now : ℕ) (s : LoginManager)
    → IsMap s.active_sessions
    → is_live now (lookup token (cleaned now s).active_sessions)
      ≡ is_live now (lookup token s.active_sessions)
lookup-cleaned token now s m =
    rw (lookup-retain (λ session. not (is_expired now session)) token s.active_sessions m)
      (elim (Option-cases (lookup token s.active_sessions)) [
        | inl missing ↦ rw missing
        | inr (session, found) ↦ rw found (ground arith)
      ])

-- With no thread inside and no token stored twice, a cleanup changes no answer: after
-- `cleanupExpiredSessions`, `validateSession` at the same time accepts just the tokens that it
-- accepted before.
pub validate_session-cleanup :
    (token : Bytes) (now : ℕ) (s : LoginManager)
    → IsIdle s
    → IsMap s.active_sessions
    → (t u : LoginManager) × ((cleanup_expired_sessions now >> validate_session token now) s
        ≡ returns (is_live now (lookup token s.active_sessions)) t)
      × (validate_session token now s ≡ returns (is_live now (lookup token s.active_sessions)) u)
validate_session-cleanup token now s idle m =
    let idle' : IsIdle (cleaned now s) = record {
      credentials_free = idle.credentials_free;
      sessions_free = idle.sessions_free;
      attempts_free = idle.attempts_free;
    } in
    (
      drop_if_expired token now (lookup token (cleaned now s).active_sessions) (cleaned now s),
      drop_if_expired token now (lookup token s.active_sessions) s,
      rw (cleanup-idle now s idle, ◌>>=◌)
          (rw (← lookup-cleaned token now s m)
            (validate_session-idle token now (cleaned now s) idle')),
      validate_session-idle token now s idle,
    )

store-idle :
    {A : Type 0} (token : Bytes) (session : SessionInfo) (k : Call LoginManager A)
    (s : LoginManager)
    → IsIdle s
    → (store_session token session >> k) s
      ≡ k (record s { active_sessions = insert token session s.active_sessions })
unfolding store_session
store-idle token session k s idle = ground arith

lookup-drop_if_expired :
    (token : Bytes) (now : ℕ) (s : LoginManager) (session : SessionInfo)
    → lookup token s.active_sessions ≡ some session
    → lookup token (drop_if_expired token now (lookup token s.active_sessions) s).active_sessions
      ≡ (if leb now session.expires_at then some session else none)
lookup-drop_if_expired token now s session found = elim (Bool-cases (leb now session.expires_at)) [
  | inl live ↦ rw (found, live) found
  | inr over ↦ rw (found, over) (lookup-erase_self token s.active_sessions)
]

-- When a session ends: the configured timeout after its creation, or thirty days after it.
abbrev pub expiry : LoginManager → Bool → ℕ → ℕ
expiry s remember created =
    created + (if remember then seconds 2592000 else seconds s.session_timeout_seconds)

-- With no thread inside, a session that a login has stored is accepted up to its expiry and stays
-- stored; from then on it is refused and removed. The expiry is the timeout after the creation, or
-- thirty days after it with "remember me".
pub validate_session-store :
    (token username : Bytes) (remember : Bool) (created now : ℕ) (s : LoginManager)
    → IsIdle s
    → let session = new_session s token username remember created in
      let live = leb now (expiry s remember created) in
      (t : LoginManager) × ((store_session token session >> validate_session token now) s
        ≡ returns live t)
      × (lookup token t.active_sessions ≡ (if live then some session else none))
validate_session-store token username remember created now s idle =
    let session = new_session s token username remember created in
    let t = record s { active_sessions = insert token session s.active_sessions } in
    let idle' : IsIdle t = record {
      credentials_free = idle.credentials_free;
      sessions_free = idle.sessions_free;
      attempts_free = idle.attempts_free;
    } in
    let found : lookup token t.active_sessions ≡ some session =
      lookup-insert_self token session s.active_sessions in
    (
      _,
      store-idle token session (validate_session token now) s idle
          ∙ validate_session-idle token now t idle'
          ∙ ap
              (λ o.
                returns (is_live now o)
                  (drop_if_expired token now (lookup token t.active_sessions) t))
              found,
      lookup-drop_if_expired token now t session found,
    )

logout-idle :
    (token : Bytes) (s : LoginManager)
    → IsIdle s
    → (t : LoginManager) × (logout token s ≡ returns (is_some (lookup token s.active_sessions)) t)
      × IsIdle t
      × (lookup token t.active_sessions ≡ none)
      × ((other : Bytes)
          → lookup other t.active_sessions
            ≡ (if eqb token other then none else lookup other s.active_sessions))
unfolding logout
logout-idle token s idle = elim (Option-cases (lookup token s.active_sessions)) [
  | inl missing ↦ (
    s,
    rw (missing, logout) (ground arith),
    idle,
    missing,
    λ other. ground (arith, eqb_iff token other, missing),
  )
  | inr (session, found) ↦ (
    record s { active_sessions = erase token s.active_sessions },
    rw (found, logout) (ground arith),
    record {
      credentials_free = idle.credentials_free;
      sessions_free = idle.sessions_free;
      attempts_free = idle.attempts_free;
    },
    lookup-erase_self token s.active_sessions,
    λ other. lookup-erase token other s.active_sessions,
  )
]

validate_absent :
    (token : Bytes) (now : ℕ) (s : LoginManager)
    → IsIdle s
    → lookup token s.active_sessions ≡ none
    → validate_session token now s ≡ returns false s
unfolding validate_session
validate_absent token now s idle gone = ground arith

logout_absent :
    (token : Bytes) (s : LoginManager)
    → IsIdle s
    → lookup token s.active_sessions ≡ none
    → logout token s ≡ returns false s
unfolding logout
logout_absent token s idle gone = ground arith

-- With no thread inside, `logout` tells whether the token had a session. After it `validateSession`
-- refuses the token at any time, a second `logout` finds nothing, and the other sessions are as
-- they were.
pub validate_session-logout :
    (token : Bytes) (now : ℕ) (s : LoginManager)
    → IsIdle s
    → (t : LoginManager) × (logout token s ≡ returns (is_some (lookup token s.active_sessions)) t)
      × (validate_session token now t ≡ returns false t)
      × (logout token t ≡ returns false t)
      × ((other : Bytes)
          → lookup other t.active_sessions
            ≡ (if eqb token other then none else lookup other s.active_sessions))
validate_session-logout token now s idle =
    let (t, ran, idle', gone, others) = logout-idle token s idle in
    (t, ran, validate_absent token now t idle' gone, logout_absent token t idle' gone, others)
