-- ===== src/Credentials/Disk.antt =====
-- src/credential_manager.cpp: saveCredentialsToFile, createDefaultCredentials,
-- ensureCredentialsFileExists, loadCredentials, updatePassword and the constructor, on the disk.
pub mod Table
pub mod Saved
pub mod Restart
use ur_webif.Base.{
  ℕ, Bool, true, false, ◌||◌, Option, none, some, List, [], ◌∷◌, Bytes, codes, Assoc, lookup,
  insert, eqb, is_empty, if◌then◌else◌,
}
use ur_webif.Run.{Call, ◌>>=◌, ◌>>◌, pure, gets, modify, try_catch}
use ur_webif.Json.{Attempt, attempt, JsonLibrary}
use ur_webif.Credentials.State.{CredentialManager, Hasher, milliseconds}
use ur_webif.Credentials.Cipher.{encryption_key, encrypt, decrypt}
use ur_webif.Credentials.Manager.{hash_password}

-- The clock readings of one write, and whether the file opens for writing; what is written to an
-- open file is taken to arrive.
pub record Saving : Type 0 where
  pub updated_at : ℕ
  pub created_at : ℕ
  pub writable : Bool

unfoldable pub write_file : Saving → Bytes → Call CredentialManager Bool
write_file w content =
    if w.writable
    then modify (λ s. record s { credentials_file = some content }) >> pure true
    else pure false

module _ {J : Type 0} (lib : JsonLibrary J) where
  -- `credentials_data["credentials"][username] = password_hash` for each entry.
  unfoldable pub fill : Assoc Bytes → J → Call CredentialManager J
  fill [] table = pure table
  fill ((username, password_hash) ∷ more) table =
      attempt (lib.assign table username (lib.text password_hash)) >>= λ table'. fill more table'

  abbrev pub metadata : Bytes → ℕ → J
  metadata stamp now = lib.object (
      (stamp, lib.number (milliseconds now))
      ∷ (codes "version", lib.text (codes "1.0"))
      ∷ (codes "encryption", lib.text (codes "simple_hash"))
      ∷ [])

  -- The encrypted credentials file.
  unfoldable pub write_encrypted : Saving → Bytes → Call CredentialManager Bool
  unfolding write_file
  write_encrypted w text = do
    let sealed = lib.text (encrypt text encryption_key)
    file ← attempt (lib.assign lib.null (codes "encrypted") (lib.flag true))
    file ← attempt (lib.assign file (codes "data") sealed)
    file ← attempt (lib.assign file (codes "key_hint") (lib.text (codes "ur-webif-default-key")))
    file ← attempt (lib.assign file (codes "created") (lib.number (milliseconds w.created_at)))
    content ← attempt (lib.dump file)
    write_file w content

  unfoldable pub write_credentials : Saving → Call CredentialManager Bool
  unfolding fill write_encrypted
  write_credentials w = do
    credentials ← gets λ s. s.credentials
    table ← fill credentials (lib.object [])
    document ← attempt (lib.assign lib.null (codes "credentials") table)
    document ←
        attempt
          (lib.assign document (codes "metadata") (metadata (codes "last_updated") w.updated_at))
    text ← attempt (lib.dump document)
    write_encrypted w text

  unfoldable pub save_credentials_to_file : Saving → Call CredentialManager Bool
  unfolding write_credentials
  save_credentials_to_file w = try_catch (write_credentials w) (λ _. pure false)

  unfoldable pub create_default_credentials : Hasher → Saving → Call CredentialManager Bool
  unfolding write_encrypted
  create_default_credentials hasher w = do
    let hash = hash_password hasher (codes "admin") (codes "admin")
    let admin = lib.object ((codes "admin", lib.text hash) ∷ [])
    document ← attempt (lib.assign lib.null (codes "credentials") admin)
    document ←
        attempt (lib.assign document (codes "metadata") (metadata (codes "created") w.updated_at))
    text ← attempt (lib.dump document)
    write_encrypted w text

  -- Whether the file that is found has nothing in it.
  abbrev blank_file : Option Bytes → Bool
  blank_file none = true
  blank_file (some content) = is_empty content || eqb content (codes "\n")

  unfoldable pub ensure_credentials_file_exists : Hasher → Saving → Call CredentialManager Bool
  unfolding create_default_credentials
  ensure_credentials_file_exists hasher w = do
    file ← gets λ s. s.credentials_file
    if blank_file file then create_default_credentials hasher w else pure true

  -- `credentials_[username] = password_hash` for each item.
  unfoldable pub adopt : List (Bytes × J) → Call CredentialManager (Unit {0})
  adopt [] = pure tt
  adopt ((username, password_hash) ∷ more) = do
    hash ← attempt (lib.to_text password_hash)
    modify λ s. record s { credentials = insert username hash s.credentials }
    adopt more

  -- What follows the check for the encryption.
  unfoldable pub load_encrypted : J → Call CredentialManager Bool
  unfolding adopt
  load_encrypted file = do
    (sealed, file) ← attempt (lib.member file (codes "data"))
    encrypted_data ← attempt (lib.to_text sealed)
    decrypted_data ← attempt (decrypt encrypted_data encryption_key)
    document ← attempt (lib.parse decrypted_data)
    if lib.contains document (codes "credentials")
        then (do
          (table, document) ← attempt (lib.member document (codes "credentials"))
          adopt (lib.items table)
          pure true)
        else pure false

  unfoldable pub read_credentials : Bytes → Call CredentialManager Bool
  unfolding load_encrypted
  read_credentials content = do
    file ← attempt (lib.parse content)
    (encrypted, file) ← attempt (lib.member file (codes "encrypted"))
    if lib.equals_flag encrypted true then load_encrypted file else pure false

  load_file : Option Bytes → Call CredentialManager Bool
  load_file none = pure false
  load_file (some content) = try_catch (read_credentials content) (λ _. pure false)

  unfoldable pub load_credentials : Call CredentialManager Bool
  unfolding read_credentials load_file
  load_credentials = do file ← gets λ s. s.credentials_file; load_file file

  -- The constructor, once the configuration is read: an object with the settings and no entries.
  unfoldable pub construct : Hasher → Saving → Call CredentialManager (Unit {0})
  unfolding ensure_credentials_file_exists load_credentials
  construct hasher w =
      ensure_credentials_file_exists hasher w >>= λ _. load_credentials >>= λ _. pure tt

  -- The update of a user found.
  unfoldable pub replace_password :
      Hasher → Option Bytes → Bytes → Bytes → Saving → Call CredentialManager Bool
  replace_password hasher none username new_password w = pure false
  replace_password hasher (some old_hash) username new_password w = do
    let hash = hash_password hasher new_password username
    modify λ s. record s { credentials = insert username hash s.credentials }
    save_credentials_to_file w

  unfoldable pub update_password : Hasher → Bytes → Bytes → Saving → Call CredentialManager Bool
  unfolding replace_password save_credentials_to_file
  update_password hasher username new_password w =
      try_catch
        (do
          credentials ← gets λ s. s.credentials
          replace_password hasher (lookup username credentials) username new_password w)
        (λ _. pure false)
