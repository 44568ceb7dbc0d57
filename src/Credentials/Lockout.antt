-- ===== src/Credentials/Lockout.antt =====
-- Wrong passwords of one user, the lockout that they lead to, and its end.
use ur_webif.Base.{
  ℕ, suc, ◌+◌, ◌≤◌, ◌<◌, true, false, Option, none, some, List, [], ◌∷◌, Bytes, ◌≡◌, refl, sym, leb,
  ◌∙◌, ap, arith, lookup, length, eqb, eqb_refl, Bool-cases, inl, inr, ltb, if◌then◌else◌,
  lookup-insert_self,
}
use ur_webif.Credentials.State.{
  FailedAttempt, LoginResult, CredentialManager, Readings, Hasher, seconds,
}
use ur_webif.Credentials.Attempts.{
  record_failed_attempt, clear_failed_attempts, is_user_banned, attempt_or_new, count_failure,
  banned_at, used_up,
}
use ur_webif.Credentials.Manager.{
  authenticate, check_password, hash_password, refuse_wrong, refuse_unknown, refuse_banned, accept,
}

pub record Guess : Type 0 where
  pub password : Bytes
  pub readings : Readings

-- The object after a call of `authenticate` for each guess.
pub guess_all : Hasher → Bytes → List Guess → CredentialManager → CredentialManager
guess_all hasher username [] s = s
guess_all hasher username (g ∷ gs) s =
    guess_all hasher username gs (authenticate hasher username g.password g.readings s).1

abbrev pub IsWrong : Hasher → Bytes → Option Bytes → Bytes → Type 0
IsWrong hasher username none password = Unit
IsWrong hasher username (some stored) password =
    eqb stored (hash_password hasher password username) ≡ false

-- Every password is wrong, and the clock does not go back.
abbrev pub AreWrong : Hasher → Bytes → Option Bytes → ℕ → List Guess → Type 0
AreWrong hasher username stored now [] = Unit
AreWrong hasher username stored now (g ∷ gs) =
    IsWrong hasher username stored g.password
    × (now ≤ g.readings.checked_at)
    × (g.readings.checked_at ≤ g.readings.recorded_at)
    × AreWrong hasher username stored g.readings.recorded_at gs

-- When the last guess was recorded.
abbrev pub last_recorded : ℕ → List Guess → ℕ
last_recorded now [] = now
last_recorded now (g ∷ gs) = last_recorded g.readings.recorded_at gs

-- What the entry of the user says after `n` failures of which the last was recorded at `now`.
abbrev Counted : CredentialManager → ℕ → ℕ → Option FailedAttempt → Type 0
Counted s n now none = n ≡ 0
Counted s n now (some a) =
    (a.count ≡ n)
    × (n < s.max_login_attempts → a.lockout_until ≤ now)
    × (n ≡ s.max_login_attempts → a.lockout_until ≡ now + seconds s.lockout_duration)

Counted-open :
    (s : CredentialManager) (n now later : ℕ) (o : Option FailedAttempt)
    → n < s.max_login_attempts
    → now ≤ later
    → Counted s n now o
    → (banned_at later o ≡ false) × (used_up s.max_login_attempts o ≡ false)
Counted-open s n now later none lt le c = (refl, refl)
Counted-open s n now later (some a) lt le c = ground (arith, c.1 lt, c.0)

Counted-failure :
    (s : CredentialManager) (n now later : ℕ) (o : Option FailedAttempt)
    → n < s.max_login_attempts
    → now ≤ later
    → Counted s n now o
    → Counted s (suc n) later (some (count_failure s later (attempt_or_new later o)))
Counted-failure s n now later none lt le c =
    (omega (arith, c), λ h. ground (arith, c), λ h. ground (arith, c))
Counted-failure s n now later (some a) lt le c =
    (omega (arith, c.0), λ h. ground (arith, c.0, c.1 lt), λ h. ground (arith, c.0))

check_password-wrong :
    (hasher : Hasher) (stored : Option Bytes) (username password : Bytes) (r : Readings)
    (result : LoginResult) (s : CredentialManager)
    → IsWrong hasher username stored password
    → (check_password hasher stored username password r result s).1
      ≡ record_failed_attempt username r.recorded_at s
unfolding check_password refuse_unknown refuse_wrong
check_password-wrong hasher none username password r result s w = refl
check_password-wrong hasher (some stored) username password r result s w = rw w refl

authenticate-wrong :
    (hasher : Hasher) (username password : Bytes) (r : Readings) (s : CredentialManager)
    → banned_at r.checked_at (lookup username s.failed_attempts) ≡ false
    → used_up s.max_login_attempts (lookup username s.failed_attempts) ≡ false
    → IsWrong hasher username (lookup username s.credentials) password
    → (authenticate hasher username password r s).1 ≡ record_failed_attempt username r.recorded_at s
unfolding authenticate is_user_banned
authenticate-wrong hasher username password r s free left w =
    rw (free, left)
      (check_password-wrong hasher (lookup username s.credentials) username password r _ s w)

Counted-full :
    (s : CredentialManager) (n now : ℕ) (o : Option FailedAttempt)
    → n ≡ s.max_login_attempts
    → Counted s n now o
    → Counted s s.max_login_attempts now o
Counted-full s n now none e c = omega (arith, c)
Counted-full s n now (some a) e c =
    (omega (arith, c.0), λ lt. absurd (omega arith), λ h. omega (arith, c.2 e))

record Guessed (username : Bytes) (s t : CredentialManager) (last : ℕ) : Type 0 where
  credentials : t.credentials ≡ s.credentials
  sessions : t.active_sessions ≡ s.active_sessions
  max_attempts : t.max_login_attempts ≡ s.max_login_attempts
  duration : t.lockout_duration ≡ s.lockout_duration
  counted : Counted t t.max_login_attempts last (lookup username t.failed_attempts)

guess_all-Guessed :
    (hasher : Hasher) (username : Bytes) (gs : List Guess) (s : CredentialManager) (n now : ℕ)
    → n + length gs ≡ s.max_login_attempts
    → Counted s n now (lookup username s.failed_attempts)
    → AreWrong hasher username (lookup username s.credentials) now gs
    → Guessed username s (guess_all hasher username gs s) (last_recorded now gs)
unfolding guess_all record_failed_attempt
guess_all-Guessed hasher username [] s n now many c w = record {
  credentials = refl;
  sessions = refl;
  max_attempts = refl;
  duration = refl;
  counted = Counted-full s n now (lookup username s.failed_attempts) (omega (arith, many)) c;
}
guess_all-Guessed hasher username (g ∷ gs) s n now many c w =
    let at = g.readings.recorded_at in
    let found = lookup username s.failed_attempts in
    let lt : n < s.max_login_attempts = omega (arith, many) in
    let (free, left) = Counted-open s n now g.readings.checked_at found lt w.1 c in
    let s' = record_failed_attempt username at s in
    let ih =
      guess_all-Guessed hasher username gs s' (suc n) at (omega (arith, many))
        (rw
          (lookup-insert_self username (count_failure s at (attempt_or_new at found))
            s.failed_attempts)
          (Counted-failure s n now at found lt (omega (arith, w.1, w.2)) c))
        w.3 in
    rw (authenticate-wrong hasher username g.password g.readings s free left w.0) (record {
      credentials = ih.credentials;
      sessions = ih.sessions;
      max_attempts = ih.max_attempts;
      duration = ih.duration;
      counted = ih.counted;
    })

locked_out :
    (s : CredentialManager) (last : ℕ) (o : Option FailedAttempt)
    → 0 < s.max_login_attempts
    → Counted s s.max_login_attempts last o
    → (now : ℕ)
    → banned_at now o ≡ (if ltb now (last + seconds s.lockout_duration) then true else false)
locked_out s last none p c now = absurd (omega (arith, c))
locked_out s last (some a) p c now = rw (c.2 refl) (ground arith)

authenticate-banned :
    (hasher : Hasher) (username password : Bytes) (r : Readings) (s : CredentialManager)
    → banned_at r.checked_at (lookup username s.failed_attempts) ≡ true
    → ((authenticate hasher username password r s).0.success ≡ false)
      × ((authenticate hasher username password r s).0.is_banned ≡ true)
      × ((authenticate hasher username password r s).1 ≡ s)
unfolding authenticate is_user_banned refuse_banned
authenticate-banned hasher username password r s h = rw h (refl, refl, refl)

accept-success :
    (hasher : Hasher) (username password : Bytes) (r : Readings) (result : LoginResult)
    (s : CredentialManager)
    → (check_password hasher
        (some (hash_password hasher password username))
        username
        password
        r
        result
        s).0.success
      ≡ true
unfolding check_password accept
accept-success hasher username password r result s =
    rw (eqb_refl (hash_password hasher password username)) refl

-- The right password, when there is no lockout.
pub authenticate-right :
    (hasher : Hasher) (username password : Bytes) (r : Readings) (s : CredentialManager)
    → banned_at r.checked_at (lookup username s.failed_attempts) ≡ false
    → lookup username s.credentials ≡ some (hash_password hasher password username)
    → (authenticate hasher username password r s).0.success ≡ true
unfolding authenticate is_user_banned clear_failed_attempts
authenticate-right hasher username password r s h found =
    elim (Bool-cases (used_up s.max_login_attempts (lookup username s.failed_attempts))) [
      | inl used ↦ rw (h, used, found) (accept-success hasher username password r _ _)
      | inr left ↦ rw (h, left, found) (accept-success hasher username password r _ _)
    ]

-- A user without failed attempts, of whom as many wrong passwords come as are allowed, by a clock
-- that does not go back: after them the right password is accepted when the lockout has lasted its
-- whole duration since the last of them was recorded, and not before. The credentials and the
-- sessions stay as they were.
pub guess_all-lockout :
    (hasher : Hasher) (username right : Bytes) (gs : List Guess) (s : CredentialManager)
    (r : Readings)
    → lookup username s.failed_attempts ≡ none
    → 0 < s.max_login_attempts
    → length gs ≡ s.max_login_attempts
    → lookup username s.credentials ≡ some (hash_password hasher right username)
    → AreWrong hasher username (lookup username s.credentials) 0 gs
    → (t : CredentialManager) × (t ≡ guess_all hasher username gs s)
      × (t.credentials ≡ s.credentials)
      × (t.active_sessions ≡ s.active_sessions)
      × ((authenticate hasher username right r t).0.success
          ≡ leb (last_recorded 0 gs + seconds s.lockout_duration) r.checked_at)
guess_all-lockout hasher username right gs s r new p many found w =
    let g = guess_all-Guessed hasher username gs s 0 0 (omega (arith, many)) (rw new refl) w in
    let t = guess_all hasher username gs s in
    let until = last_recorded 0 gs + seconds s.lockout_duration in
    let locked =
      locked_out t (last_recorded 0 gs) (lookup username t.failed_attempts)
        (omega (arith, g.max_attempts)) g.counted r.checked_at in
    (
      t,
      refl,
      g.credentials,
      g.sessions,
      elim (Bool-cases (leb until r.checked_at)) [
        | inl late ↦
            authenticate-right hasher username right r t
              (locked ∙ rw g.duration (ground (arith, late)))
              (ap (lookup username) g.credentials ∙ found)
            ∙ sym late
        | inr soon ↦
            (authenticate-banned hasher username right r t
              (locked ∙ rw g.duration (ground (arith, soon)))).0
            ∙ sym soon
      ],
    )
