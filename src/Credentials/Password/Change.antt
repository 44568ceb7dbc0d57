-- ===== src/Credentials/Password/Change.antt =====
-- What changePassword does to the credentials and the sessions.
use ur_webif.Base.{
  Bool, true, false, not, ◌&&◌, ◌||◌, Option, none, some, [], ◌∷◌, Bytes, codes, Assoc, lookup,
  insert, erase, is_empty, is_some, lookup-erase_self, lookup-erase, eqb, eqb_refl, eqb_iff, ◌≡◌,
  refl, ◌∙◌, sym, ap, arith, if◌then◌else◌, Bool-cases, inl, inr,
}
use ur_webif.Run.{pure, try_catch, Ends, Ends-weaken}
use ur_webif.Run.Returns.{Ends-then, Ends-caught}
use ur_webif.Json.{JsonLibrary}
use ur_webif.Credentials.State.{LoginResult, CredentialManager, Readings, Hasher}
use ur_webif.Credentials.Attempts.{
  banned_at, used_up, is_user_banned, clear_failed_attempts, record_failed_attempt,
}
use ur_webif.Credentials.Manager.{
  authenticate, check_password, hash_password, accept, refuse_wrong, refuse_unknown, refuse_banned,
  generate_session_token, invalidate_session, validate_session,
}
use ur_webif.Credentials.Lockout.{IsWrong, authenticate-right}
use ur_webif.Credentials.Disk.{Saving, replace_password, update_password, save_credentials_to_file}
use ur_webif.Credentials.Disk.Saved.{SameButFile, save_credentials_to_file-Wrote}
use ur_webif.Credentials.Password.{
  Request, Moments, PasswordChangeResult, change_password, change_validated, change_authenticated,
  has_minimum_length, conclude_change, change_strong, validate_password_strength,
}

-- The object after a right password.
pub record Accepted (username : Bytes) (r : Readings) (s t : CredentialManager) : Type 0 where
  pub credentials : t.credentials ≡ s.credentials
  pub file : t.credentials_file ≡ s.credentials_file
  pub attempts : lookup username t.failed_attempts ≡ none
  pub sessions :
      t.active_sessions
      ≡ insert
          (generate_session_token username r.token_at r.token_number)
          username
          s.active_sessions

accept-Accepted :
    (hasher : Hasher) (username password : Bytes) (r : Readings) (result : LoginResult)
    (s : CredentialManager)
    → Accepted username r s
        (check_password hasher
          (some (hash_password hasher password username))
          username
          password
          r
          result
          s).1
unfolding check_password accept clear_failed_attempts
accept-Accepted hasher username password r result s =
    rw (eqb_refl (hash_password hasher password username)) (record {
      credentials = refl;
      file = refl;
      attempts = lookup-erase_self username s.failed_attempts;
      sessions = refl;
    })

authenticate-Accepted :
    (hasher : Hasher) (username password : Bytes) (r : Readings) (s : CredentialManager)
    → banned_at r.checked_at (lookup username s.failed_attempts) ≡ false
    → lookup username s.credentials ≡ some (hash_password hasher password username)
    → Accepted username r s (authenticate hasher username password r s).1
unfolding authenticate is_user_banned clear_failed_attempts
authenticate-Accepted hasher username password r s h found =
    elim (Bool-cases (used_up s.max_login_attempts (lookup username s.failed_attempts))) [
      | inl used ↦
          (let a =
              accept-Accepted hasher username password r _ (clear_failed_attempts username s) in
            rw (h, used, found)
              (record {
                credentials = a.credentials;
                file = a.file;
                attempts = a.attempts;
                sessions = a.sessions;
              }))
      | inr left ↦ rw (h, left, found) (accept-Accepted hasher username password r _ s)
    ]

-- A wrong password, the user banned or not, changes nothing but the failed attempts.
record Rejected (s t : CredentialManager) : Type 0 where
  credentials : t.credentials ≡ s.credentials
  file : t.credentials_file ≡ s.credentials_file
  sessions : t.active_sessions ≡ s.active_sessions

check_password-Rejected :
    (hasher : Hasher) (stored : Option Bytes) (username password : Bytes) (r : Readings)
    (result : LoginResult) (s : CredentialManager)
    → result.success ≡ false
    → IsWrong hasher username stored password
    → ((check_password hasher stored username password r result s).0.success ≡ false)
      × Rejected s (check_password hasher stored username password r result s).1
unfolding check_password refuse_unknown refuse_wrong record_failed_attempt
check_password-Rejected hasher none username password r result s n w =
    (n, record { credentials = refl; file = refl; sessions = refl })
check_password-Rejected hasher (some stored) username password r result s n w =
    rw w (ground (arith, n), record { credentials = refl; file = refl; sessions = refl })

authenticate-Rejected :
    (hasher : Hasher) (username password : Bytes) (r : Readings) (s : CredentialManager)
    → IsWrong hasher username (lookup username s.credentials) password
    → ((authenticate hasher username password r s).0.success ≡ false)
      × Rejected s (authenticate hasher username password r s).1
unfolding authenticate is_user_banned clear_failed_attempts refuse_banned
authenticate-Rejected hasher username password r s w =
    elim (Bool-cases (banned_at r.checked_at (lookup username s.failed_attempts))) [
      | inl h ↦ rw h (refl, record { credentials = refl; file = refl; sessions = refl })
      | inr h ↦
          elim (Bool-cases (used_up s.max_login_attempts (lookup username s.failed_attempts))) [
            | inl used ↦
                (let (n, e) =
                    check_password-Rejected hasher (lookup username s.credentials) username password
                      r _ (clear_failed_attempts username s) refl w in
                  rw (h, used)
                    (
                      n,
                      record { credentials = e.credentials; file = e.file; sessions = e.sessions },
                    ))
            | inr left ↦
                rw (h, left)
                  (check_password-Rejected hasher (lookup username s.credentials) username password
                    r _ s refl w)
          ]
    ]

-- The sessions that the two checks of the current password add.
abbrev pub opened : Request → Moments → CredentialManager → Assoc Bytes
opened q w s =
    insert (generate_session_token q.username w.verification.token_at w.verification.token_number)
      q.username
      (insert (generate_session_token q.username w.validation.token_at w.validation.token_number)
        q.username s.active_sessions)

strong_given :
    (password : Bytes) → validate_password_strength password ≡ none → is_empty password ≡ false
unfolding validate_password_strength has_minimum_length
strong_given [] h = ground (arith, h)
strong_given (c ∷ cs) h = refl

-- The sessions after the request ended one.
abbrev pub without : Bytes → Assoc Bytes → Assoc Bytes
without token sessions = if is_empty token then sessions else erase token sessions

-- What a change with the right password leaves.
pub record Changed (hasher : Hasher) (q : Request) (w : Moments) (s : CredentialManager)
    (result : PasswordChangeResult) (t : CredentialManager) : Type 0 where
  pub credentials :
      t.credentials
      ≡ insert q.username (hash_password hasher q.new_password q.username) s.credentials
  pub attempts : lookup q.username t.failed_attempts ≡ none
  pub sessions :
      t.active_sessions
      ≡ (if result.success then without q.session_token (opened q w s) else opened q w s)
  pub code : result.error_code ≡ (if result.success then [] else codes "UPDATE_FAILED")
  pub saved : (result.success && not w.saving.writable) ≡ false

module _ {J : Type 0} (lib : JsonLibrary J) where
  -- With a wrong current password, or for a user that does not exist, a change of the password
  -- fails, whatever else the request says and however the files behave, and changes neither the
  -- credentials nor the file nor the sessions.
  pub change_password-wrong :
      (hasher : Hasher) (q : Request) (w : Moments) (s : CredentialManager)
      → IsWrong hasher q.username (lookup q.username s.credentials) q.current_password
      → Ends
          (change_password lib hasher q w s)
          (λ result t.
            (result.success ≡ false)
            × (t.credentials ≡ s.credentials)
            × (t.credentials_file ≡ s.credentials_file)
            × (t.active_sessions ≡ s.active_sessions))
          (λ _ _. ⊥)
  unfolding change_password
  change_password-wrong hasher q w s wrong =
      let (n, same) =
        authenticate-Rejected hasher q.username q.current_password w.validation s wrong in
      elim (Bool-cases (
        is_empty q.username
        || is_empty q.current_password
        || is_empty q.new_password
        || is_empty q.confirm_password)) [
          | inl missing ↦ rw missing (refl, refl, refl, refl)
          | inr given ↦ elim (Bool-cases (eqb q.new_password q.confirm_password)) [
            | inr differ ↦ rw (given, differ) (refl, refl, refl, refl)
            | inl equal ↦ rw (given, equal, n) (refl, same.credentials, same.file, same.sessions)
          ]
        ]

  -- The object whose password is changed, the file apart.
  abbrev with_password : Hasher → Request → CredentialManager → CredentialManager
  with_password hasher q s = record s {
    credentials = insert q.username (hash_password hasher q.new_password q.username) s.credentials;
  }

  update_password-found :
      (hasher : Hasher) (q : Request) (w : Saving) (old : Bytes) (s : CredentialManager)
      → lookup q.username s.credentials ≡ some old
      → update_password lib hasher q.username q.new_password w s
        ≡ try_catch (save_credentials_to_file lib w) (λ _. pure false) (with_password hasher q s)
  unfolding update_password replace_password
  update_password-found hasher q w old s found =
      ap
        (λ (o : Option Bytes).
          try_catch (replace_password lib hasher o q.username q.new_password w) (λ _. pure false) s)
        found

  update_password-Ends :
      (hasher : Hasher) (q : Request) (w : Saving) (old : Bytes) (s : CredentialManager)
      → lookup q.username s.credentials ≡ some old
      → Ends
          (update_password lib hasher q.username q.new_password w s)
          (λ b t. SameButFile (with_password hasher q s) t × ((b && not w.writable) ≡ false))
          (λ _ _. ⊥)
  update_password-Ends hasher q w old s found = rw (update_password-found hasher q w old s found) (
      Ends-caught _ (save_credentials_to_file lib w) (λ _. pure false) (with_password hasher q s)
        (save_credentials_to_file-Wrote lib w (with_password hasher q s)))

  conclude_change-Changed :
      (hasher : Hasher) (q : Request) (w : Moments) (s t u : CredentialManager) (b : Bool)
      → t.credentials ≡ s.credentials
      → lookup q.username t.failed_attempts ≡ none
      → t.active_sessions ≡ opened q w s
      → SameButFile (with_password hasher q t) u
      → (b && not w.saving.writable) ≡ false
      → Ends (conclude_change lib q b u) (Changed hasher q w s) (λ _ _. ⊥)
  unfolding conclude_change invalidate_session
  conclude_change-Changed hasher q w s t u false same attempts sessions kept shut = record {
    credentials =
        kept.credentials
        ∙ ap (insert q.username (hash_password hasher q.new_password q.username)) same;
    attempts = ap (lookup q.username) kept.attempts ∙ attempts;
    sessions = kept.sessions ∙ sessions;
    code = refl;
    saved = refl;
  }
  conclude_change-Changed hasher q w s t u true same attempts sessions kept shut =
      elim (Bool-cases (is_empty q.session_token)) [
        | inl e ↦ rw e (record {
          credentials =
              kept.credentials
              ∙ ap (insert q.username (hash_password hasher q.new_password q.username)) same;
          attempts = ap (lookup q.username) kept.attempts ∙ attempts;
          sessions = rw e (kept.sessions ∙ sessions);
          code = refl;
          saved = shut;
        })
        | inr e ↦ rw e (record {
          credentials =
              kept.credentials
              ∙ ap (insert q.username (hash_password hasher q.new_password q.username)) same;
          attempts = ap (lookup q.username) kept.attempts ∙ attempts;
          sessions = rw e (ap (erase q.session_token) (kept.sessions ∙ sessions));
          code = refl;
          saved = shut;
        })
      ]

  change_authenticated-Changed :
      (hasher : Hasher) (q : Request) (w : Moments) (s t : CredentialManager) (old : Bytes)
      → lookup q.username t.credentials ≡ some old
      → t.credentials ≡ s.credentials
      → lookup q.username t.failed_attempts ≡ none
      → t.active_sessions ≡ opened q w s
      → Ends (change_authenticated lib hasher q w t) (Changed hasher q w s) (λ _ _. ⊥)
  unfolding change_authenticated
  change_authenticated-Changed hasher q w s t old found same attempts sessions =
      Ends-then (Changed hasher q w s)
        (update_password lib hasher q.username q.new_password w.saving t) (conclude_change lib q)
        (update_password-Ends hasher q w.saving old t found)
        (λ b u kept.
          conclude_change-Changed hasher q w s t u b same attempts sessions kept.0 kept.1)

  change_strong-Changed :
      (hasher : Hasher) (q : Request) (w : Moments) (s t : CredentialManager)
      → eqb q.new_password q.current_password ≡ false
      → (authenticate hasher q.username q.current_password w.verification t).0.success ≡ true
      → Ends
          (change_authenticated lib hasher q w
            (authenticate hasher q.username q.current_password w.verification t).1)
          (Changed hasher q w s)
          (λ _ _. ⊥)
      → Ends (change_strong lib hasher none q w t) (Changed hasher q w s) (λ _ _. ⊥)
  unfolding change_strong
  change_strong-Changed hasher q w s t new ok e = rw (new, ok) e

  change_validated-Changed :
      (hasher : Hasher) (q : Request) (w : Moments) (s t : CredentialManager)
      → Accepted q.username w.validation s t
      → lookup q.username s.credentials ≡ some (hash_password hasher q.current_password q.username)
      → validate_password_strength q.new_password ≡ none
      → eqb q.new_password q.current_password ≡ false
      → Ends (change_validated lib hasher q w t) (Changed hasher q w s) (λ _ _. ⊥)
  unfolding change_validated
  change_validated-Changed hasher q w s t a found strong new =
      let found' = ap (lookup q.username) a.credentials ∙ found in
      let free : banned_at w.verification.checked_at (lookup q.username t.failed_attempts) ≡ false =
        rw a.attempts refl in
      let b =
        authenticate-Accepted hasher q.username q.current_password w.verification t free found' in
      let ok =
        authenticate-right hasher q.username q.current_password w.verification t free found' in
      rw (change_validated, strong)
        (change_strong-Changed hasher q w s t new ok (
          change_authenticated-Changed hasher q w s
            (authenticate hasher q.username q.current_password w.verification t).1
            (hash_password hasher q.current_password q.username)
            (ap (lookup q.username) b.credentials ∙ found') (b.credentials ∙ a.credentials)
            b.attempts (b.sessions ∙ ap (insert _ q.username) a.sessions)))

  -- A change of the password by a user who is not banned, with the right current password and a
  -- strong new one, which the request repeats and which differs from the current one, always
  -- returns. Then the new password is the one that counts and no failed attempt is left, whatever
  -- the answer is: where the file cannot be written, the answer is UPDATE_FAILED although the
  -- password has changed. The two checks of the current password have opened two sessions, and
  -- with success the session of the request is ended, with a failure none.
  pub change_password-right :
      (hasher : Hasher) (q : Request) (w : Moments) (s : CredentialManager)
      → is_empty q.username ≡ false
      → is_empty q.current_password ≡ false
      → eqb q.new_password q.confirm_password ≡ true
      → validate_password_strength q.new_password ≡ none
      → eqb q.new_password q.current_password ≡ false
      → banned_at w.validation.checked_at (lookup q.username s.failed_attempts) ≡ false
      → lookup q.username s.credentials ≡ some (hash_password hasher q.current_password q.username)
      → Ends (change_password lib hasher q w s) (Changed hasher q w s) (λ _ _. ⊥)
  unfolding change_password
  change_password-right hasher q w s named given equal strong new free found =
      let not_empty = strong_given q.new_password strong in
      let not_empty' =
        ap is_empty (sym ((eqb_iff q.new_password q.confirm_password).0 equal)) ∙ not_empty in
      let a =
        authenticate-Accepted hasher q.username q.current_password w.validation s free found in
      let ok = authenticate-right hasher q.username q.current_password w.validation s free found in
      rw (named, given, not_empty, not_empty', equal, ok)
        (change_validated-Changed hasher q w s
          (authenticate hasher q.username q.current_password w.validation s).1 a found strong new)

  still_there :
      (hasher : Hasher) (q : Request) (w : Moments) (s : CredentialManager) (token : Bytes)
      (success : Bool)
      → is_some (lookup token (opened q w s)) ≡ true
      → eqb q.session_token token ≡ false
      → is_some
          (lookup token (if success then without q.session_token (opened q w s) else opened q w s))
        ≡ true
  still_there hasher q w s token false there other = there
  still_there hasher q w s token true there other = elim (Bool-cases (is_empty q.session_token)) [
    | inl e ↦ rw e there
    | inr e ↦ rw e (rw (lookup-erase q.session_token token (opened q w s), other) there)
  ]

  -- In the same case: each session that was valid before, and each of the two that the change has
  -- opened and does not return, is valid afterwards, unless it is the one of the request.
  pub change_password-sessions :
      (hasher : Hasher) (q : Request) (w : Moments) (s : CredentialManager) (token : Bytes)
      → is_empty q.username ≡ false
      → is_empty q.current_password ≡ false
      → eqb q.new_password q.confirm_password ≡ true
      → validate_password_strength q.new_password ≡ none
      → eqb q.new_password q.current_password ≡ false
      → banned_at w.validation.checked_at (lookup q.username s.failed_attempts) ≡ false
      → lookup q.username s.credentials ≡ some (hash_password hasher q.current_password q.username)
      → is_some (lookup token (opened q w s)) ≡ true
      → eqb q.session_token token ≡ false
      → Ends (change_password lib hasher q w s) (λ _ t. validate_session token t ≡ true) (λ _ _. ⊥)
  unfolding validate_session
  change_password-sessions hasher q w s token named given equal strong new free found there other =
      Ends-weaken {Q = Changed hasher q w s} {Q' = λ _ t. validate_session token t ≡ true}
        {E = λ _ _. ⊥} (change_password lib hasher q w s)
        (change_password-right hasher q w s named given equal strong new free found)
        (λ result t c.
          ap (λ (sessions : Assoc Bytes). is_some (lookup token sessions)) c.sessions
          ∙ still_there hasher q w s token result.success there other)
        (λ _ _ e. e)
