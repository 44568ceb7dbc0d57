-- ===== src/Credentials/Password.antt =====
-- src/password_manager.cpp.
pub mod Common
pub mod Change
use ur_webif.Base.{
  ℕ, ◌+◌, Bool, true, false, not, ◌&&◌, ◌||◌, Option, none, some, List, [], ◌∷◌, Bytes, codes, map,
  eqb, ◌==◌, leb, is_empty, length, any_of, if◌then◌else◌,
}
use ur_webif.Run.{Call, returns, ◌>>=◌, ◌>>◌, pure, modify}
use ur_webif.Json.{JsonLibrary}
use ur_webif.Security.Address.{within}
use ur_webif.Credentials.State.{LoginResult, CredentialManager, Readings, Hasher}
use ur_webif.Credentials.Manager.{authenticate, invalidate_session}
use ur_webif.Credentials.Disk.{Saving, update_password}

unfoldable pub has_minimum_length : Bytes → Bool
has_minimum_length password = leb 8 (length password)

unfoldable pub has_uppercase : Bytes → Bool
has_uppercase password = any_of (within b'A' b'Z') password

unfoldable pub has_lowercase : Bytes → Bool
has_lowercase password = any_of (within b'a' b'z') password

unfoldable pub has_digit : Bytes → Bool
has_digit password = any_of (within b'0' b'9') password

unfoldable pub is_special : ℕ → Bool
is_special c = any_of (λ special. special == c) (codes "!@#$%^&*()_+-=[]{}|;:,.<>?")

unfoldable pub has_special_char : Bytes → Bool
has_special_char password = any_of is_special password

abbrev pub common_passwords : List Bytes
common_passwords = map codes (
    "password" ∷ "123456" ∷ "12345678" ∷ "qwerty" ∷ "abc123" ∷ "password123" ∷ "admin" ∷ "letmein"
    ∷ "welcome" ∷ "monkey" ∷ "1234567890" ∷ "dragon" ∷ "master" ∷ "login" ∷ "password1" ∷ [])

-- `tolower` of the "C" locale.
abbrev pub to_lower : ℕ → ℕ
to_lower c = if within b'A' b'Z' c then c + 32 else c

unfoldable pub is_not_common_password : Bytes → Bool
is_not_common_password password =
    let lower_password = map to_lower password in not (any_of (eqb lower_password) common_passwords)

-- The error message, nothing where the source answers true.
unfoldable pub validate_password_strength : Bytes → Option Bytes
validate_password_strength password =
    if not (has_minimum_length password)
    then some (codes "Password must be at least 8 characters long")
    else if not (has_uppercase password)
    then some (codes "Password must contain at least one uppercase letter")
    else if not (has_lowercase password)
    then some (codes "Password must contain at least one lowercase letter")
    else if not (has_digit password)
    then some (codes "Password must contain at least one digit")
    else if not (has_special_char password)
    then some (codes "Password must contain at least one special character (!@#$%^&*)")
    else if not (is_not_common_password password)
    then some (codes "Password is too common, please choose a more secure password")
    else none

pub record PasswordChangeResult : Type 0 where
  pub success : Bool
  pub message : Bytes
  pub error_code : Bytes

abbrev pub failed : Bytes → Bytes → PasswordChangeResult
failed message error_code = record { success = false; message = message; error_code = error_code }

-- The fields of a request.
pub record Request : Type 0 where
  pub username : Bytes
  pub current_password : Bytes
  pub new_password : Bytes
  pub confirm_password : Bytes
  pub session_token : Bytes

-- The clock readings of the two calls of `authenticate` and of the update.
pub record Moments : Type 0 where
  pub validation : Readings
  pub verification : Readings
  pub saving : Saving

abbrev pub sign_in : Hasher → Bytes → Bytes → Readings → Call CredentialManager LoginResult
sign_in hasher username password r s =
    let (result, t) = authenticate hasher username password r s in returns result t

module _ {J : Type 0} (lib : JsonLibrary J) where
  abbrev pub end_session : Bytes → Call CredentialManager (Unit {0})
  end_session session_token =
      if is_empty session_token then pure tt else modify (invalidate_session session_token)

  -- What follows the update.
  unfoldable pub conclude_change : Request → Bool → Call CredentialManager PasswordChangeResult
  conclude_change q true = do
    end_session q.session_token
    pure (record {
      success = true;
      message = codes "Password changed successfully";
      error_code = [];
    })
  conclude_change q false =
      pure (failed (codes "Failed to update password") (codes "UPDATE_FAILED"))

  -- What follows the second check of the current password.
  unfoldable pub change_authenticated :
      Hasher → Request → Moments → Call CredentialManager PasswordChangeResult
  unfolding conclude_change
  change_authenticated hasher q w =
      update_password lib hasher q.username q.new_password w.saving >>= conclude_change q

  -- What follows the check of the new password's strength.
  unfoldable pub change_strong :
      Hasher → Option Bytes → Request → Moments → Call CredentialManager PasswordChangeResult
  unfolding change_authenticated
  change_strong hasher (some strength_error) q w =
      pure (failed strength_error (codes "WEAK_PASSWORD"))
  change_strong hasher none q w =
      if eqb q.new_password q.current_password
      then pure (
          failed (codes "New password must be different from current password")
            (codes "SAME_PASSWORD"))
      else (do
        auth_result ← sign_in hasher q.username q.current_password w.verification
        if auth_result.success
            then change_authenticated hasher q w
            else pure (failed (codes "Authentication failed") (codes "AUTH_FAILED")))

  -- What follows the first check of the current password.
  unfoldable pub change_validated :
      Hasher → Request → Moments → Call CredentialManager PasswordChangeResult
  unfolding change_strong
  change_validated hasher q w = change_strong hasher (validate_password_strength q.new_password) q w

  unfoldable pub change_password :
      Hasher → Request → Moments → Call CredentialManager PasswordChangeResult
  unfolding change_validated
  change_password hasher q w =
      if is_empty q.username
        || is_empty q.current_password
        || is_empty q.new_password
        || is_empty q.confirm_password
      then pure (failed (codes "All fields are required") (codes "MISSING_FIELDS"))
      else if not (eqb q.new_password q.confirm_password)
      then pure (failed (codes "New passwords do not match") (codes "PASSWORD_MISMATCH"))
      else (do
        auth_result ← sign_in hasher q.username q.current_password w.validation
        if auth_result.success
            then change_validated hasher q w
            else pure
                (failed (codes "Current password is incorrect") (codes "INVALID_CURRENT_PASSWORD")))
