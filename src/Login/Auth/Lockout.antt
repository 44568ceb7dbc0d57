-- ===== src/Login/Auth/Lockout.antt =====
-- The lockout: how many passwords one address can try.
use Prim.Native.Nat.{min}
use ur_webif.Base.{
  Assoc, ◌∙◌, ◌==◌, ℕ, ◌+◌, ◌≤◌, ◌<◌, Bool, true, false, Option, none, some, List, [], ◌∷◌, Bytes,
  ◌≡◌, refl, arith, lookup, length, eqb, if◌then◌else◌, lookup-insert_self, lookup-insert,
  Bool-cases, inl, inr, IsNegative, codes, pos, ◌-◌,
}
use ur_webif.Run.{returns, ◌>>=◌, Call, pure}
use ur_webif.Run.Returns.{bind-returns}
use ur_webif.Login.State.{
  LoginManager, LoginAttempt, LoginResult, UserCredentials, Platform, IsIdle, seconds,
}
use ur_webif.Login.Attempts.{is_ip_locked, count_failure, attempt_or_new, locked_at}
use ur_webif.Login.Auth.{Readings, authenticate, refused, remaining_attempts}
use ur_webif.Login.Auth.Cases.{
  IsWrong, with_failure, authenticate-locked, authenticate-wrong, is_ip_locked-idle,
}

pub record Try : Type 0 where
  pub username : Bytes
  pub password : Bytes
  pub remember : Bool
  pub readings : Readings

abbrev pub attempt : Platform → Bytes → Try → Call LoginManager LoginResult
attempt os client_ip t = authenticate os t.username t.password t.remember client_ip t.readings

-- The calls of `authenticate` that one address makes, one after the other.
pub attempt_all : Platform → Bytes → List Try → Call LoginManager (List LoginResult)
attempt_all os client_ip [] = pure []
attempt_all os client_ip (t ∷ ts) =
    attempt os client_ip t >>= λ r. attempt_all os client_ip ts >>= λ rs. pure (r ∷ rs)

-- The answers to wrong passwords after `n` failures: up to the allowed attempts each one is counted
-- and told how many are left, and from then on each one is told of the lockout.
abbrev pub refusals : ℕ → ℕ → List Try → List LoginResult
refusals allowed n [] = []
refusals allowed n (t ∷ ts) =
    if n == allowed
    then refused (codes "Account temporarily locked due to multiple failed attempts") (pos allowed)
      ∷ refusals allowed n ts
    else refused (codes "Invalid username or password") (pos (allowed - (n + 1)))
      ∷ refusals allowed (n + 1) ts

-- Every password is wrong and every clock reading lies in one lockout period from `start` on.
abbrev pub WrongWithin : Platform → ℕ → Assoc UserCredentials → ℕ → List Try → Type 0
WrongWithin os start users duration [] = Unit
WrongWithin os start users duration (t ∷ ts) =
    IsWrong os (lookup t.username users) t.password
    × (start ≤ t.readings.recorded_at)
    × (t.readings.checked_at < start + seconds duration)
    × WrongWithin os start users duration ts

abbrev pub failures : Bytes → LoginManager → ℕ
failures client_ip s = (attempt_or_new (lookup client_ip s.login_attempts)).attempts

-- What is known of the record of an address after `n` failures.
record Counted (start : ℕ) (s : LoginManager) (n : ℕ) (a : LoginAttempt) : Type 0 where
  counted : a.attempts ≡ n
  bounded : n ≤ s.max_login_attempts
  open_until : n < s.max_login_attempts → a.lockout_until ≡ 0
  closed_until :
      n ≡ s.max_login_attempts → start + seconds s.lockout_duration_seconds ≤ a.lockout_until

-- What the tries of one address leave alone.
pub record Untouched (client_ip : Bytes) (s t : LoginManager) : Type 0 where
  pub users : t.users ≡ s.users
  pub sessions : t.active_sessions ≡ s.active_sessions
  pub file : t.credentials_file ≡ s.credentials_file
  pub timeout : t.session_timeout_seconds ≡ s.session_timeout_seconds
  pub max_attempts : t.max_login_attempts ≡ s.max_login_attempts
  pub duration : t.lockout_duration_seconds ≡ s.lockout_duration_seconds
  pub idle : IsIdle t
  pub others :
      (ip : Bytes)
      → lookup ip t.login_attempts
        ≡ (if eqb client_ip ip then lookup ip t.login_attempts else lookup ip s.login_attempts)

-- Nothing happened.
Untouched-refl : (ip : Bytes) (s : LoginManager) → IsIdle s → Untouched ip s s
Untouched-refl ip s idle = record {
  users = refl;
  sessions = refl;
  file = refl;
  timeout = refl;
  max_attempts = refl;
  duration = refl;
  idle = idle;
  others = λ ip'. ground arith;
}

-- A failed login of the address touches nothing else.
Untouched-with_failure :
    (ip : Bytes) (now : ℕ) (s t : LoginManager)
    → Untouched ip (with_failure ip now s) t
    → Untouched ip s t
Untouched-with_failure ip now s t u = record {
  users = u.users;
  sessions = u.sessions;
  file = u.file;
  timeout = u.timeout;
  max_attempts = u.max_attempts;
  duration = u.duration;
  idle = u.idle;
  others = λ j. ground (
    arith,
    u.others j,
    lookup-insert ip j (count_failure s now (attempt_or_new (lookup ip s.login_attempts)))
        s.login_attempts,
  );
}

-- An address with no more than the allowed failures is locked out when it has used all of them.
Counted-locked_at :
    (start now n : ℕ) (s : LoginManager) (o : Option LoginAttempt)
    → 0 < s.max_login_attempts
    → now < start + seconds s.lockout_duration_seconds
    → Counted start s n (attempt_or_new o)
    → locked_at now o ≡ (if n == s.max_login_attempts then true else false)
Counted-locked_at start now n s none p h c = ground (arith, c.counted, c.bounded)
Counted-locked_at start now n s (some a) p h c =
    ground (arith, c.bounded, c.open_until, c.closed_until)

Counted-with_failure :
    (start n now : ℕ) (ip : Bytes) (s : LoginManager)
    → start ≤ now
    → n < s.max_login_attempts
    → Counted start s n (attempt_or_new (lookup ip s.login_attempts))
    → Counted start
        (with_failure ip now s)
        (n + 1)
        (attempt_or_new (lookup ip (with_failure ip now s).login_attempts))
unfolding count_failure
Counted-with_failure start n now ip s h lt c =
    rw
      (lookup-insert_self ip (count_failure s now (attempt_or_new (lookup ip s.login_attempts)))
        s.login_attempts)
      (record {
        counted = ground (arith, c.counted);
        bounded = omega arith;
        open_until = λ q. ground (arith, c.counted, c.open_until);
        closed_until = λ q. ground (arith, c.counted);
      })

-- What `lockout-min` claims, from `n` failures on.
abbrev Bounded : Platform → Bytes → List Try → LoginManager → ℕ → Type 0
Bounded os ip ts s n =
    (t : LoginManager) × (attempt_all os ip ts s ≡ returns (refusals s.max_login_attempts n ts) t)
    × (failures ip t ≡ min (n + length ts) s.max_login_attempts)
    × Untouched ip s t

attempt_all-step :
    (os : Platform) (ip : Bytes) (t : Try) (ts : List Try) (s s' u : LoginManager) (r : LoginResult)
    (rs : List LoginResult)
    → attempt os ip t s ≡ returns r s'
    → attempt_all os ip ts s' ≡ returns rs u
    → attempt_all os ip (t ∷ ts) s ≡ returns (r ∷ rs) u
unfolding attempt_all
attempt_all-step os ip t ts s s' u r rs e es =
    bind-returns (attempt os ip t) _ s r s' e ∙ bind-returns (attempt_all os ip ts) _ s' rs u es

-- What is left after one more failure.
remaining-with_failure :
    (start n now : ℕ) (ip : Bytes) (s : LoginManager)
    → n < s.max_login_attempts
    → Counted start s n (attempt_or_new (lookup ip s.login_attempts))
    → remaining_attempts ip (with_failure ip now s) ≡ pos (s.max_login_attempts - (n + 1))
unfolding count_failure
remaining-with_failure start n now ip s lt c =
    rw
      (lookup-insert_self ip (count_failure s now (attempt_or_new (lookup ip s.login_attempts)))
        s.login_attempts)
      (ground (arith, c.counted, lt))

attempt_all-Bounded :
    (os : Platform) (ip : Bytes) (start : ℕ) (ts : List Try) (s : LoginManager) (n : ℕ)
    → IsIdle s
    → 0 < s.max_login_attempts
    → WrongWithin os start s.users s.lockout_duration_seconds ts
    → Counted start s n (attempt_or_new (lookup ip s.login_attempts))
    → Bounded os ip ts s n
attempt_all-Bounded os ip start [] s n idle p w c =
    (s, unfold attempt_all in refl, ground (arith, c.counted, c.bounded), Untouched-refl ip s idle)
attempt_all-Bounded os ip start (t ∷ ts) s n idle p w c =
    let now = t.readings.checked_at in
    let locked = Counted-locked_at start now n s (lookup ip s.login_attempts) p w.2 c in
    elim (Bool-cases (n == s.max_login_attempts)) [
      | inl full ↦
          let call =
            authenticate-locked os t.username t.password t.remember ip t.readings s idle
              (locked ∙ rw full) in
          let (u, ran, many, same) = attempt_all-Bounded os ip start ts s n idle p w.3 c in
          (
            u,
            attempt_all-step os ip t ts s s u _ _ call ran ∙ rw full refl,
            ground (arith, many, full),
            same,
          )
      | inr free ↦
          let call =
            authenticate-wrong os t.username t.password t.remember ip t.readings s idle
              (locked ∙ rw free) w.0 in
          let s' = with_failure ip t.readings.recorded_at s in
          let idle' : IsIdle s' = record {
            credentials_free = idle.credentials_free;
            sessions_free = idle.sessions_free;
            attempts_free = idle.attempts_free;
          } in
          let c' =
            Counted-with_failure start n t.readings.recorded_at ip s w.1 (ground (arith, c.bounded))
              c in
          let (u, ran, many, same) = attempt_all-Bounded os ip start ts s' (n + 1) idle' p w.3 c' in
          (
            u,
            attempt_all-step os ip t ts s s' u _ _ call ran
                ∙ rw
                    (
                      free,
                      remaining-with_failure start n t.readings.recorded_at ip s
                          (ground (arith, c.bounded)) c,
                    )
                    refl,
            omega (arith, many),
            Untouched-with_failure ip t.readings.recorded_at s u same,
          )
    ]

-- With no thread inside, at least one attempt allowed and no record of the address yet: however
-- many wrong passwords the address sends within one lockout period, each call returns. The first
-- ones, up to the allowed attempts, are answered with the number of attempts that are left, and the
-- later ones with the message of the lockout; just the first ones are counted as failures. Users,
-- sessions, the credentials file, settings and the records of the other addresses stay as they
-- were.
pub lockout-min :
    (os : Platform) (ip : Bytes) (start : ℕ) (ts : List Try) (s : LoginManager)
    → IsIdle s
    → 0 < s.max_login_attempts
    → lookup ip s.login_attempts ≡ none
    → WrongWithin os start s.users s.lockout_duration_seconds ts
    → (t : LoginManager) × (attempt_all os ip ts s ≡ returns (refusals s.max_login_attempts 0 ts) t)
      × (failures ip t ≡ min (length ts) s.max_login_attempts)
      × Untouched ip s t
lockout-min os ip start ts s idle p new w =
    let (t, ran, many, same) = attempt_all-Bounded os ip start ts s 0 idle p w (
      rw new (record {
        counted = refl;
        bounded = omega arith;
        open_until = λ _. refl;
        closed_until = λ e. absurd (omega arith);
      })) in
    (t, ran, omega (arith, many), same)

-- With no thread inside: a lockout does not forget the failures. When it is over, one more wrong
-- password locks the address out for the whole duration again, and the remaining attempts that the
-- call reports are below zero.
pub relock :
    (os : Platform) (ip : Bytes) (t : Try) (later : ℕ) (s : LoginManager) (a : LoginAttempt)
    → IsIdle s
    → lookup ip s.login_attempts ≡ some a
    → s.max_login_attempts ≤ a.attempts
    → a.lockout_until ≤ t.readings.checked_at
    → IsWrong os (lookup t.username s.users) t.password
    → later < t.readings.recorded_at + seconds s.lockout_duration_seconds
    → (r : LoginResult) × (s' : LoginManager) × (attempt os ip t s ≡ returns r s')
      × IsNegative r.remaining_attempts
      × (is_ip_locked ip later s' ≡ returns true s')
unfolding count_failure
relock os ip t later s a idle found many over w soon =
    let s' = with_failure ip t.readings.recorded_at s in
    let idle' : IsIdle s' = record {
      credentials_free = idle.credentials_free;
      sessions_free = idle.sessions_free;
      attempts_free = idle.attempts_free;
    } in
    (
      _,
      s',
      authenticate-wrong os t.username t.password t.remember ip t.readings s idle
          (rw found (ground arith)) w,
      rw
          (
            lookup-insert_self ip
                (count_failure s t.readings.recorded_at
                  (attempt_or_new (lookup ip s.login_attempts)))
                s.login_attempts,
            found,
          )
          (ground arith),
      is_ip_locked-idle ip later s' idle'
          ∙ rw
              (
                lookup-insert_self ip
                    (count_failure s t.readings.recorded_at
                      (attempt_or_new (lookup ip s.login_attempts)))
                    s.login_attempts,
                found,
              )
              (ground arith),
    )
