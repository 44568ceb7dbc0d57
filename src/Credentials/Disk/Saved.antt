-- ===== src/Credentials/Disk/Saved.antt =====
-- What saveCredentialsToFile changes.
use ur_webif.Base.{
  Bool, true, false, not, ◌&&◌, [], ◌∷◌, Bytes, codes, Assoc, ◌≡◌, refl, Bool-cases, inl, inr,
}
use ur_webif.Run.{gets, Ends, Does, Does-bind, Does-pure, Does-try_catch}
use ur_webif.Json.{Attempt, done, threw, attempt, JsonLibrary}
use ur_webif.Credentials.State.{CredentialManager, milliseconds}
use ur_webif.Credentials.Cipher.{encryption_key, encrypt}
use ur_webif.Credentials.Disk.{
  metadata, Saving, write_file, fill, write_encrypted, write_credentials, save_credentials_to_file,
}

-- All but the file is as it was.
pub record SameButFile (s t : CredentialManager) : Type 0 where
  pub credentials : t.credentials ≡ s.credentials
  pub sessions : t.active_sessions ≡ s.active_sessions
  pub attempts : t.failed_attempts ≡ s.failed_attempts

attempt-keeps :
    {A : Type 0} (P : CredentialManager → Type 0) (r : Attempt A)
    → Does P (attempt r) (λ _ t. P t) P
attempt-keeps P (done a) = record { run = λ s p. p }
attempt-keeps P (threw m) = record { run = λ s p. p }

gets-keeps :
    {A : Type 0} (P : CredentialManager → Type 0) (f : CredentialManager → A)
    → Does P (gets f) (λ _ t. P t) P
gets-keeps P f = record { run = λ s p. p }

-- What a write answers: true only if the file opens.
abbrev Wrote : Saving → CredentialManager → Bool → CredentialManager → Type 0
Wrote w s b t = SameButFile s t × ((b && not w.writable) ≡ false)

write_file-Wrote :
    (w : Saving) (content : Bytes) (s : CredentialManager)
    → Does (SameButFile s) (write_file w content) (Wrote w s) (SameButFile s)
unfolding write_file
write_file-Wrote w content s = record {
  run = λ t p. elim (Bool-cases w.writable) [
    | inl opens ↦
        rw opens (
          record { credentials = p.credentials; sessions = p.sessions; attempts = p.attempts },
          refl,
        )
    | inr shut ↦ rw shut (p, refl)
  ];
}

module _ {J : Type 0} (lib : JsonLibrary J) where
  fill-keeps :
      (m : Assoc Bytes) (table : J) (s : CredentialManager)
      → Does (SameButFile s) (fill lib m table) (λ _ t. SameButFile s t) (SameButFile s)
  unfolding fill
  fill-keeps [] table s = Does-pure (λ t p. p)
  fill-keeps ((username, hash) ∷ more) table s =
      Does-bind (attempt-keeps (SameButFile s) (lib.assign table username (lib.text hash)))
        (λ table'. fill-keeps more table' s)

  write_encrypted-Wrote :
      (w : Saving) (text : Bytes) (s : CredentialManager)
      → Does (SameButFile s) (write_encrypted lib w text) (Wrote w s) (SameButFile s)
  unfolding write_encrypted
  write_encrypted-Wrote w text s =
      Does-bind
        (attempt-keeps (SameButFile s) (lib.assign lib.null (codes "encrypted") (lib.flag true)))
        (λ a.
          Does-bind
            (attempt-keeps (SameButFile s)
              (lib.assign a (codes "data") (lib.text (encrypt text encryption_key))))
            (λ b.
              Does-bind
                (attempt-keeps (SameButFile s)
                  (lib.assign b (codes "key_hint") (lib.text (codes "ur-webif-default-key"))))
                (λ c.
                  Does-bind
                    (attempt-keeps (SameButFile s)
                      (lib.assign c (codes "created") (lib.number (milliseconds w.created_at))))
                    (λ d.
                      Does-bind (attempt-keeps (SameButFile s) (lib.dump d))
                        (λ content. write_file-Wrote w content s)))))

  write_credentials-Wrote :
      (w : Saving) (s : CredentialManager)
      → Does (SameButFile s) (write_credentials lib w) (Wrote w s) (SameButFile s)
  unfolding write_credentials
  write_credentials-Wrote w s =
      Does-bind (gets-keeps (SameButFile s) (λ t. t.credentials)) (λ credentials.
        Does-bind (fill-keeps credentials (lib.object []) s) (λ table.
          Does-bind
            (attempt-keeps (SameButFile s) (lib.assign lib.null (codes "credentials") table))
            (λ a.
              Does-bind
                (attempt-keeps (SameButFile s) (
                  lib.assign a (codes "metadata")
                    (metadata lib (codes "last_updated") w.updated_at)))
                (λ b.
                  Does-bind (attempt-keeps (SameButFile s) (lib.dump b))
                    (λ text. write_encrypted-Wrote w text s)))))

  -- It always returns, changes nothing but the file, and answers true only if the file opens.
  pub save_credentials_to_file-Wrote :
      (w : Saving) (s : CredentialManager)
      → Ends
          (save_credentials_to_file lib w s)
          (λ b t. SameButFile s t × ((b && not w.writable) ≡ false))
          (λ _ _. ⊥)
  unfolding save_credentials_to_file
  save_credentials_to_file-Wrote w s =
      Does-try_catch (write_credentials-Wrote w s) (λ t p. (p, refl)) s
        (record { credentials = refl; sessions = refl; attempts = refl })
