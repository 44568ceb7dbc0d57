-- ===== src/Examples/Credentials.antt =====
-- Logins, a restart and changes of the password on a small object.
use ur_webif.Base.{
  some, ℕ, true, false, none, List, [], ◌∷◌, Bytes, codes, lookup, insert, to_string, eqb, leb, ◌+◌,
  ◌≡◌, refl, arith,
}
use ur_webif.Run.{returns, state_after, Ends}
use ur_webif.Credentials.State.{CredentialManager, Readings, Hasher, seconds}
use ur_webif.Credentials.Manager.{
  authenticate, hash_password, validate_session, generate_session_token,
}
use ur_webif.Credentials.Lockout.{Guess, guess_all, last_recorded, guess_all-lockout}
use ur_webif.Credentials.Disk.{
  Saving, save_credentials_to_file, load_credentials, write_file, fill, write_encrypted,
  write_credentials,
}
use ur_webif.Credentials.Disk.Restart.{load_credentials-save}
use ur_webif.Credentials.Cipher.{encrypt, xor_key}
use ur_webif.Credentials.Password.{
  Request, Moments, change_password, validate_password_strength, has_minimum_length, has_uppercase,
  has_lowercase, has_digit, has_special_char, is_special, is_not_common_password,
}
use ur_webif.Credentials.Password.Common.{validate_password_strength-common}
use ur_webif.Credentials.Password.Change.{
  Changed, change_password-wrong, change_password-right, change_password-sessions,
}
use ur_webif.Login.Auth.{hex}
use ur_webif.Examples.Json.{library}
use ur_webif.Examples.Objects.{byte_library, byte_laws, dump-AreBytes}

-- A hash that takes the eighth byte, the first one of ann's passwords.
abbrev hasher : Hasher
hasher text = third text
  where
    third : Bytes → ℕ
    third (a ∷ b ∷ c ∷ d ∷ more) = d
    third _ = 0

-- Ann's password begins with "s", of which the code is 115.
abbrev manager : CredentialManager
manager = record {
  credentials = (codes "ann", codes "115") ∷ [];
  active_sessions = (codes "t0", codes "ann") ∷ [];
  failed_attempts = [];
  max_login_attempts = 2;
  lockout_duration = 1;
  credentials_file = none;
}

abbrev readings : ℕ → Readings
readings t = record {
  checked_at = t;
  recorded_at = t;
  locked_at = t;
  token_at = t;
  login_at = t;
  token_number = 123456;
}

abbrev guesses : List Guess
guesses =
    record { password = codes "a"; readings = readings 10 }
    ∷ record { password = codes "b"; readings = readings 20 }
    ∷ []

guess_all-lockout_example :
    (t : CredentialManager) × (t ≡ guess_all hasher (codes "ann") guesses manager)
    × (t.credentials ≡ manager.credentials)
    × (t.active_sessions ≡ manager.active_sessions)
    × ((authenticate hasher (codes "ann") (codes "sesame") (readings 1000000020) t).0.success
        ≡ leb (last_recorded 0 guesses + seconds manager.lockout_duration) 1000000020)
unfolding lookup eqb hash_password to_string
guess_all-lockout_example =
    guess_all-lockout hasher (codes "ann") (codes "sesame") guesses manager (readings 1000000020)
      refl (omega arith) refl refl
      (refl, omega arith, omega arith, (refl, omega arith, omega arith, tt))

abbrev saving : Saving
saving = record { updated_at = 5000000; created_at = 6000000; writable = true }

-- A program that starts with the file that the first one has written.
abbrev saved : CredentialManager
saved = state_after (save_credentials_to_file byte_library saving manager)

abbrev restarted : CredentialManager
restarted = record manager { credentials = []; credentials_file = saved.credentials_file }

load_credentials-save_example :
    (u : CredentialManager) × (load_credentials byte_library restarted ≡ returns true u)
    × ((username : Bytes) → lookup username u.credentials ≡ lookup username manager.credentials)
unfolding lookup insert eqb to_string save_credentials_to_file write_credentials write_encrypted
    write_file fill encrypt xor_key hex
load_credentials-save_example =
    load_credentials-save byte_library byte_laws saving manager saved restarted dump-AreBytes
      (refl, tt) refl refl refl

abbrev moments : Moments
moments = record { validation = readings 10; verification = readings 20; saving = saving }

abbrev request : Bytes → Request
request current = record {
  username = codes "ann";
  current_password = current;
  new_password = codes "Tulip-77";
  confirm_password = codes "Tulip-77";
  session_token = codes "t1";
}

change_password-wrong_example :
    Ends
      (change_password library hasher (request (codes "rose")) moments manager)
      (λ result t.
        (result.success ≡ false)
        × (t.credentials ≡ manager.credentials)
        × (t.credentials_file ≡ manager.credentials_file)
        × (t.active_sessions ≡ manager.active_sessions))
      (λ _ _. ⊥)
unfolding lookup eqb hash_password to_string
change_password-wrong_example =
    change_password-wrong library hasher (request (codes "rose")) moments manager refl

change_password-right_example :
    Ends
      (change_password library hasher (request (codes "sesame")) moments manager)
      (Changed hasher (request (codes "sesame")) moments manager)
      (λ _ _. ⊥)
unfolding lookup eqb hash_password to_string generate_session_token validate_password_strength
    has_minimum_length has_uppercase has_lowercase has_digit has_special_char is_special
    is_not_common_password
change_password-right_example =
    change_password-right library hasher (request (codes "sesame")) moments manager refl refl refl
      refl refl refl refl

change_password-sessions_example :
    Ends
      (change_password library hasher (request (codes "sesame")) moments manager)
      (λ _ t. validate_session (codes "t0") t ≡ true)
      (λ _ _. ⊥)
unfolding lookup insert eqb hash_password to_string generate_session_token
    validate_password_strength has_minimum_length has_uppercase has_lowercase has_digit
    has_special_char is_special is_not_common_password
change_password-sessions_example =
    change_password-sessions library hasher (request (codes "sesame")) moments manager (codes "t0")
      refl refl refl refl refl refl refl refl refl

validate_password_strength-common_example :
    validate_password_strength (codes "Password1")
    ≡ some (codes "Password must contain at least one special character (!@#$%^&*)")
unfolding has_minimum_length has_uppercase has_lowercase has_digit has_special_char is_special
validate_password_strength-common_example = validate_password_strength-common (codes "Password1")
