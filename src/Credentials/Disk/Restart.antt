-- ===== src/Credentials/Disk/Restart.antt =====
-- What loadCredentials finds after saveCredentialsToFile: a program that starts again.
use ur_webif.Base.{
  true, false, Option, none, some, [], Bytes, codes, Assoc, lookup, insert, IsMap, eqb, ◌≡◌, refl,
  ◌∙◌, sym, ap, arith,
}
use ur_webif.Run.{returns, ◌>>=◌, pure}
use ur_webif.Json.{done, attempt, JsonLibrary}
use ur_webif.Json.Objects.{ObjectLaws}
use ur_webif.Run.Returns.{bind-returns, bind-done, returned, caught}
use ur_webif.Login.Tokens.{AreBytes}
use ur_webif.Credentials.State.{CredentialManager, milliseconds}
use ur_webif.Credentials.Cipher.{encryption_key, encrypt}
use ur_webif.Credentials.Cipher.RoundTrip.{decrypt-encrypt}
use ur_webif.Credentials.Disk.{
  Saving, write_file, fill, metadata, write_encrypted, write_credentials, save_credentials_to_file,
  adopt, load_encrypted, read_credentials, load_file, load_credentials,
}
use ur_webif.Credentials.Disk.Table.{
  texts, fill-object, adopt-Adopted, lookup_table, or_else-none, IsMap-texts,
}

written :
    (w : Saving) (content : Bytes) (s t : CredentialManager)
    → write_file w content s ≡ returns true t
    → t.credentials_file ≡ some content
unfolding write_file
written w content s t h = ground (arith, h)

module _ {J : Type 0} (lib : JsonLibrary J) (laws : ObjectLaws lib) where
  -- The members of the two documents.
  abbrev document_of : Saving → Assoc Bytes → Assoc J
  document_of w m =
      insert (codes "metadata") (metadata lib (codes "last_updated") w.updated_at)
        (insert (codes "credentials") (lib.object (texts lib laws m [])) [])

  abbrev file_of : Saving → Bytes → Assoc J
  file_of w text = insert (codes "created") (lib.number (milliseconds w.created_at)) (
      insert (codes "key_hint") (lib.text (codes "ur-webif-default-key")) (
        insert (codes "data") (lib.text (encrypt text encryption_key))
          (insert (codes "encrypted") (lib.flag true) [])))

  write_encrypted-object :
      (w : Saving) (text : Bytes) (s : CredentialManager)
      → write_encrypted lib w text s
        ≡ (attempt (lib.dump (lib.object (file_of w text))) >>= write_file w) s
  unfolding write_encrypted
  write_encrypted-object w text s =
      rw
        (
          laws.assign-null (codes "encrypted") (lib.flag true),
          laws.assign-object,
          laws.assign-object,
          laws.assign-object,
        )
        refl

  write_credentials-object :
      (w : Saving) (s : CredentialManager)
      → write_credentials lib w s
        ≡ (attempt (lib.dump (lib.object (document_of w s.credentials))) >>= write_encrypted lib w)
            s
  unfolding write_credentials
  write_credentials-object w s =
      bind-returns (fill lib s.credentials (lib.object [])) _ s _ s
        (fill-object lib laws s.credentials [] s)
      ∙ rw (laws.assign-null (codes "credentials"), laws.assign-object) refl

  -- What a write that has gone well has put into the file.
  record Written (w : Saving) (s t : CredentialManager) : Type 0 where
    text : Bytes
    content : Bytes
    dumped : lib.dump (lib.object (document_of w s.credentials)) ≡ done text
    sealed : lib.dump (lib.object (file_of w text)) ≡ done content
    file : t.credentials_file ≡ some content

  save-Written :
      (w : Saving) (s t : CredentialManager)
      → save_credentials_to_file lib w s ≡ returns true t
      → Written w s t
  unfolding save_credentials_to_file
  save-Written w s t e =
      let wrote = sym (write_credentials-object w s) ∙ returned (write_credentials lib w) s t e in
      let (text, dumped, more) = bind-done _ (write_encrypted lib w) s true t wrote in
      let (content, sealed, last) =
        bind-done _ (write_file w) s true t (sym (write_encrypted-object w text s) ∙ more) in
      record {
        text = text;
        content = content;
        dumped = dumped;
        sealed = sealed;
        file = written w content s t last;
      }

  data_of_file :
      (w : Saving) (text : Bytes)
      → lookup (codes "data") (file_of w text) ≡ some (lib.text (encrypt text encryption_key))
  unfolding lookup insert eqb
  data_of_file w text = refl

  flag_of_file :
      (w : Saving) (text : Bytes)
      → lookup (codes "encrypted") (file_of w text) ≡ some (lib.flag true)
  unfolding lookup insert eqb
  flag_of_file w text = refl

  table_of_document :
      (w : Saving) (m : Assoc Bytes)
      → lookup (codes "credentials") (document_of w m) ≡ some (lib.object (texts lib laws m []))
  unfolding lookup insert eqb
  table_of_document w m = refl

  -- Reading back the encrypted document.
  load_encrypted-document :
      (w : Saving) (text : Bytes) (m c : Assoc Bytes) (s t : CredentialManager)
      → AreBytes text
      → lib.dump (lib.object (document_of w m)) ≡ done text
      → adopt lib (lib.items (lib.object (texts lib laws m []))) s ≡ returns tt t
      → load_encrypted lib (lib.object (file_of w text)) s ≡ returns true t
  unfolding load_encrypted
  load_encrypted-document w text m c s t bytes dumped ran =
      rw
        (
          laws.member-lookup (file_of w text) (codes "data") _ (data_of_file w text),
          laws.to_text-text (encrypt text encryption_key),
          decrypt-encrypt text bytes,
          laws.parse-dump (lib.object (document_of w m)) text dumped,
          laws.contains-lookup (document_of w m) (codes "credentials"),
          table_of_document w m,
          laws.member-lookup (document_of w m) (codes "credentials") _ (table_of_document w m),
        )
        (bind-returns (adopt lib (lib.items (lib.object (texts lib laws m [])))) (λ _. pure true) s
          tt t ran)

  read_credentials-file :
      (w : Saving) (text content : Bytes) (s : CredentialManager)
      → lib.dump (lib.object (file_of w text)) ≡ done content
      → read_credentials lib content s ≡ load_encrypted lib (lib.object (file_of w text)) s
  unfolding read_credentials
  read_credentials-file w text content s sealed =
      rw
        (
          laws.parse-dump (lib.object (file_of w text)) content sealed,
          laws.member-lookup (file_of w text) (codes "encrypted") _ (flag_of_file w text),
          laws.equals_flag-flag,
        )
        refl

  found_file :
      (content : Bytes) (s u : CredentialManager)
      → s.credentials_file ≡ some content
      → read_credentials lib content s ≡ returns true u
      → load_credentials lib s ≡ returns true u
  unfolding load_credentials load_file
  found_file content s u file ran =
      ap (λ (f : Option Bytes). load_file lib f s) file
      ∙ caught (read_credentials lib content) (λ _. pure false) s true u ran

  no_entry : (k : Bytes) (c : Assoc Bytes) → c ≡ [] → lookup k c ≡ none
  unfolding lookup
  no_entry k c h = rw h refl

  -- The texts of the library are bytes, and the entries have different user names. When
  -- saveCredentialsToFile answers true, loadCredentials of a program that starts with the file it
  -- has left, and with no entries, answers true and has the same entries again.
  pub load_credentials-save :
      (w : Saving) (s t fresh : CredentialManager)
      → ((j : J) (text : Bytes) → lib.dump j ≡ done text → AreBytes text)
      → IsMap s.credentials
      → save_credentials_to_file lib w s ≡ returns true t
      → fresh.credentials ≡ []
      → fresh.credentials_file ≡ t.credentials_file
      → (u : CredentialManager) × (load_credentials lib fresh ≡ returns true u)
        × ((username : Bytes) → lookup username u.credentials ≡ lookup username s.credentials)
  load_credentials-save w s t fresh bytes is e empty same =
      let wr = save-Written w s t e in
      let m = s.credentials in
      let table : Assoc J = texts lib laws m [] in
      let (c, ran, all) =
        adopt-Adopted lib laws (lib.items (lib.object table)) m fresh
          (laws.items-IsMap table (IsMap-texts lib laws m [] tt))
          (λ k. lookup_table lib laws m k is) in
      let u = record fresh { credentials = c } in
      (
        u,
        found_file wr.content fresh u (same ∙ wr.file) (
            read_credentials-file w wr.text wr.content fresh wr.sealed
            ∙ load_encrypted-document w wr.text m c fresh u (bytes _ _ wr.dumped) wr.dumped ran),
        λ k. all k ∙ rw (no_entry k fresh.credentials empty) (or_else-none lib laws (lookup k m)),
      )
