-- ===== src/Examples/Login.antt =====
-- Logins, lockouts and sessions on a small object.
use ur_webif.Base.{
  ℕ, true, false, none, List, [], ◌∷◌, Bytes, codes, ◌≡◌, refl, arith, lookup, insert, eqb, Assoc,
  IsNegative,
}
use ur_webif.Run.{returns, blocked, state_after}
use ur_webif.Login.State.{LoginManager, LoginResult, UserCredentials, SessionInfo, Platform, IsIdle}
use ur_webif.Login.Attempts.{is_ip_locked}
use ur_webif.Login.Auth.{
  Readings, authenticate, hash_password, hex, construct, new_session, default_user,
}
use ur_webif.Login.Auth.Lockout.{
  Try, attempt, attempt_all, failures, Untouched, refusals, lockout-min, relock,
}
use ur_webif.Login.Handler.{are_plausible, handle_login_message}
use ur_webif.Login.Handler.Unanswered.{handle_login_message-hangs}
use ur_webif.Examples.Json.{Json, words, object_of, library}
use ur_webif.Login.Auth.Deadlock.{stuck_login, authenticate-after-right, construct-no_file}

-- A digest that keeps its text, and a file that cannot be read back.
abbrev toy_os : Platform
toy_os = record {
  sha256 = λ text. text;
  encode = λ users. codes "users";
  decode = λ text. none;
  writable = true;
}

-- The user "ann" has the password "sesame" and no salt.
abbrev ann : UserCredentials
ann = record {
  username = codes "ann";
  password_hash = codes "736573616d65";
  salt = [];
  remember_me_enabled = false;
  created_at = 0;
  last_login = 0;
}

-- A session that runs out at 500.
abbrev old_session : SessionInfo
old_session = record {
  session_token = codes "t1";
  username = codes "ann";
  created_at = 100;
  expires_at = 500;
  remember_me = false;
}

abbrev sessions : Assoc SessionInfo
sessions = insert (codes "t1") old_session []

-- Two attempts are allowed, a lockout lasts one second, a session two.
abbrev manager : LoginManager
manager = record {
  users = (codes "ann", ann) ∷ [];
  active_sessions = sessions;
  login_attempts = [];
  credentials_file = none;
  session_timeout_seconds = 2;
  max_login_attempts = 2;
  lockout_duration_seconds = 1;
  credentials_held = false;
  sessions_held = false;
  attempts_held = false;
}

abbrev manager_idle : IsIdle manager
manager_idle = record { credentials_free = refl; sessions_free = refl; attempts_free = refl }

abbrev readings : ℕ → Readings
readings t = record {
  checked_at = t;
  recorded_at = t;
  created_at = t;
  login_at = t;
  token_bytes = 171 ∷ 205 ∷ [];
}

abbrev guess : Bytes → ℕ → Try
guess password t = record {
  username = codes "ann";
  password = password;
  remember = false;
  readings = readings t;
}

abbrev guesses : List Try
guesses = guess (codes "a") 10 ∷ guess (codes "b") 20 ∷ guess (codes "c") 30 ∷ []

abbrev attacker : Bytes
attacker = codes "10.0.0.9"

lockout-min_example :
    (t : LoginManager) × (attempt_all toy_os attacker guesses manager
      ≡ returns (refusals 2 0 guesses) t)
    × (failures attacker t ≡ 2)
    × Untouched attacker manager t
unfolding lookup eqb hash_password hex
lockout-min_example =
    lockout-min toy_os attacker 0 guesses manager manager_idle (omega arith) refl (
      refl,
      omega arith,
      omega arith,
      (refl, omega arith, omega arith, (refl, omega arith, omega arith, tt)),
    )

-- Her manager after two failures, with the lockout over.
abbrev released : LoginManager
released = record manager {
  login_attempts =
      (attacker, record { attempts = 2; last_attempt = 20; lockout_until = 1000000020 }) ∷ [];
}

abbrev late_guess : Try
late_guess = guess (codes "d") 2000000000

relock_example :
    (r : LoginResult) × (s' : LoginManager) × (attempt toy_os attacker late_guess released
      ≡ returns r s')
    × IsNegative r.remaining_attempts
    × (is_ip_locked attacker 2999999999 s' ≡ returns true s')
unfolding lookup eqb hash_password hex
relock_example =
    relock toy_os attacker late_guess 2999999999 released _
      (record { credentials_free = refl; sessions_free = refl; attempts_free = refl }) refl
      (omega arith) (omega arith) refl (omega arith)

-- Ann logs in, and then somebody else tries.
authenticate-after-right_example :
    authenticate toy_os (codes "bob") (codes "x") false (codes "10.0.0.2") (readings 900) (
      state_after (
        authenticate toy_os
          (codes "ann")
          (codes "sesame")
          true
          (codes "10.0.0.1")
          (readings 50)
          manager))
    ≡ blocked (stuck_login ann (codes "ann") true (codes "10.0.0.1") (readings 50) manager)
unfolding lookup insert eqb hash_password hex
authenticate-after-right_example =
    authenticate-after-right toy_os (codes "ann") (codes "sesame") true (codes "10.0.0.1")
      (readings 50) manager ann manager_idle refl refl refl (codes "bob") (codes "x") false
      (codes "10.0.0.2") (readings 900) refl

construct-no_file_example :
    construct toy_os (1 ∷ 2 ∷ []) 7 manager
    ≡ blocked (record manager {
      users = insert (codes "root") (default_user toy_os (hex (1 ∷ 2 ∷ [])) 7) manager.users;
      credentials_held = true;
    })
construct-no_file_example = construct-no_file toy_os (1 ∷ 2 ∷ []) 7 manager manager_idle refl

abbrev fresh : SessionInfo
fresh = new_session manager (codes "t2") (codes "ann") false 100

-- 64 bytes.
abbrev token_bytes : Bytes
token_bytes = codes "0123456789abcdef0123456789abcdef0123456789abcdef0123456789abcdef"

-- Ann's login as a message.
abbrev login_payload : Json
login_payload =
    object_of
      ((codes "username", words (codes "ann")) ∷ (codes "password", words (codes "sesame")) ∷ [])

abbrev login_message : Json
login_message = object_of ((codes "payload", login_payload) ∷ [])

handle_login_message-hangs_example :
    handle_login_message library toy_os login_message
      (codes "client")
      (codes "10.0.0.1")
      (readings 50)
      60
      manager
    ≡ blocked (stuck_login ann (codes "ann") false (codes "10.0.0.1") (readings 50) manager)
unfolding lookup eqb hash_password hex are_plausible
handle_login_message-hangs_example =
    handle_login_message-hangs library toy_os login_message (codes "client") (codes "10.0.0.1")
      (readings 50) 60 (codes "ann") (codes "sesame") false ann manager
      (record {
        payload = login_payload;
        user = words (codes "ann");
        word = words (codes "sesame");
        has_payload = refl;
        has_user = refl;
        has_word = refl;
        at_payload = refl;
        at_user = refl;
        at_word = refl;
        user_string = refl;
        word_string = refl;
        user_text = refl;
        word_text = refl;
        flag = refl;
      })
      refl (omega arith) manager_idle refl refl refl
