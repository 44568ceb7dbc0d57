-- ===== src/Login/Handler/Unanswered.antt =====
-- A login message on its way through sanitizeInput and LoginManager::authenticate.
use ur_webif.Base.{
  ℕ, ◌≤◌, Bool, true, false, not, ◌&&◌, some, [], ◌∷◌, ◌++◌, Bytes, codes, lookup, eqb, ltb, length,
  take, take_all, all_of, keep_if, skip_while, drop_last_while, if◌then◌else◌, ◌≡◌, refl, ◌∙◌, sym,
  ap, arith, Bool-cases, inl, inr,
}
use mathlib.Core.List.{reverse, reverse-append, reverse-reverse}
use ur_webif.Run.{returns, blocked, ◌>>=◌, pure}
use ur_webif.Run.Returns.{bind-returns, bind-blocked, caught, caught-blocked}
use ur_webif.Json.{Attempt, done, attempt, JsonLibrary}
use ur_webif.Login.State.{UserCredentials, LoginManager, Platform, IsIdle}
use ur_webif.Login.Attempts.{locked_at}
use ur_webif.Login.Auth.{Readings, authenticate, hash_password}
use ur_webif.Login.Auth.Deadlock.{stuck_login, authenticate-right}
use ur_webif.Login.Handler.{
  at, is_control, is_space, is_user_char, sanitize_input, are_plausible, validate_payload,
  validate_login_input, respond_error, login_validated, handle_login_message,
}

all_of-append : (p : ℕ → Bool) (xs ys : Bytes) → all_of p (xs ++ ys) ≡ (all_of p xs && all_of p ys)
all_of-append p [] ys = refl
all_of-append p (x ∷ xs) ys = ground (arith, all_of-append p xs ys)

all_of-reverse : (p : ℕ → Bool) (xs : Bytes) → all_of p xs ≡ true → all_of p (reverse xs) ≡ true
all_of-reverse p [] h = refl
all_of-reverse p (x ∷ xs) h =
    ap (all_of p) (reverse-append (x ∷ []) xs)
    ∙ all_of-append p (reverse xs) (x ∷ [])
    ∙ ground (arith, h, all_of-reverse p xs)

skip_while-none :
    (p : ℕ → Bool) (xs : Bytes) → all_of (λ c. not (p c)) xs ≡ true → skip_while p xs ≡ xs
skip_while-none p [] h = refl
skip_while-none p (x ∷ xs) h = ground (arith, h)

drop_last_while-none :
    (p : ℕ → Bool) (xs : Bytes) → all_of (λ c. not (p c)) xs ≡ true → drop_last_while p xs ≡ xs
drop_last_while-none p xs h =
    ap reverse (skip_while-none p (reverse xs) (all_of-reverse (λ c. not (p c)) xs h))
    ∙ reverse-reverse xs

keep_if-all : (p : ℕ → Bool) (xs : Bytes) → all_of p xs ≡ true → keep_if p xs ≡ xs
keep_if-all p [] h = refl
keep_if-all p (x ∷ xs) h = ground (arith, h, keep_if-all p xs)

all_of-weaken :
    (p q : ℕ → Bool) (xs : Bytes)
    → ((c : ℕ) → p c ≡ true → q c ≡ true)
    → all_of p xs ≡ true
    → all_of q xs ≡ true
all_of-weaken p q [] k h = refl
all_of-weaken p q (x ∷ xs) k h = ground (arith, h, k x, all_of-weaken p q xs k)

-- A name of the characters that a user name may have is only cut to 256 characters.
pub sanitize_input-user :
    (username : Bytes)
    → all_of is_user_char username ≡ true
    → sanitize_input username ≡ take 256 username
unfolding sanitize_input
sanitize_input-user username h =
    let kept =
      keep_if-all (λ c. not (is_control c)) username
        (all_of-weaken is_user_char (λ c. not (is_control c)) username (λ c e. ground (arith, e))
          h) in
    let solid =
      all_of-weaken is_user_char (λ c. not (is_space c)) username (λ c e. ground (arith, e)) h in
    rw (kept, skip_while-none is_space username solid, drop_last_while-none is_space username solid)
      (elim (Bool-cases (ltb 256 (length username))) [
        | inl long ↦ rw long refl
        | inr short ↦ rw short (sym (take_all 256 username (ground (arith, short))))
      ])

module _ {J : Type 0} (lib : JsonLibrary J) where
  -- A message with these two texts and this flag.
  pub record IsLogin (message : J) (username password : Bytes) (remember : Bool) : Type 0 where
    pub payload : J
    pub user : J
    pub word : J
    pub has_payload : lib.contains message (codes "payload") ≡ true
    pub has_user : lib.contains payload (codes "username") ≡ true
    pub has_word : lib.contains payload (codes "password") ≡ true
    pub at_payload : lib.member message (codes "payload") ≡ done (payload, message)
    pub at_user : lib.member payload (codes "username") ≡ done (user, payload)
    pub at_word : lib.member payload (codes "password") ≡ done (word, payload)
    pub user_string : lib.is_string user ≡ true
    pub word_string : lib.is_string word ≡ true
    pub user_text : lib.to_text user ≡ done username
    pub word_text : lib.to_text word ≡ done password
    pub flag : lib.value_flag payload (codes "remember_me") false ≡ done remember

  at-member :
      (value found : J) (key : Bytes) (s : LoginManager)
      → lib.member value key ≡ done (found, value)
      → at lib value key s ≡ returns found s
  at-member value found key s e = rw e refl

  attempt-done :
      {A : Type 0} (r : Attempt A) (a : A) (s : LoginManager)
      → r ≡ done a
      → attempt r s ≡ returns a s
  attempt-done r a s e = rw e refl

  validate_payload-plausible :
      (message : J) (username password : Bytes) (remember : Bool) (s : LoginManager)
      (m : IsLogin message username password remember)
      → validate_payload lib m.payload s ≡ returns (are_plausible username password) s
  unfolding validate_payload
  validate_payload-plausible message username password remember s m =
      rw (m.has_user, m.has_word)
        (bind-returns (at lib m.payload (codes "username")) _ s m.user s
            (at-member m.payload m.user (codes "username") s m.at_user)
          ∙ bind-returns (at lib m.payload (codes "password")) _ s m.word s
              (at-member m.payload m.word (codes "password") s m.at_word)
          ∙ rw (m.user_string, m.word_string)
              (bind-returns (attempt (lib.to_text m.user)) _ s username s
                  (attempt-done (lib.to_text m.user) username s m.user_text)
                ∙ bind-returns (attempt (lib.to_text m.word)) _ s password s
                    (attempt-done (lib.to_text m.word) password s m.word_text)))

  validate_login_input-plausible :
      (message : J) (username password : Bytes) (remember : Bool) (s : LoginManager)
      → IsLogin message username password remember
      → validate_login_input lib message s ≡ returns (are_plausible username password) s
  unfolding validate_login_input
  validate_login_input-plausible message username password remember s m =
      caught
        (if not (lib.contains message (codes "payload"))
          then pure false
          else at lib message (codes "payload") >>= validate_payload lib)
        (λ _. pure false) s (are_plausible username password) s
        (rw m.has_payload (
          bind-returns (at lib message (codes "payload")) (validate_payload lib) s m.payload s
            (at-member message m.payload (codes "payload") s m.at_payload)
          ∙ validate_payload-plausible message username password remember s m))

  login_validated-waits :
      (os : Platform) (message : J) (client_id client_ip : Bytes) (r : Readings) (now : ℕ)
      (username password : Bytes) (remember : Bool) (s t : LoginManager)
      → IsLogin message username password remember
      → authenticate os (sanitize_input username) password remember client_ip r s ≡ blocked t
      → login_validated lib os message client_id client_ip r now s ≡ blocked t
  unfolding login_validated
  login_validated-waits os message client_id client_ip r now username password remember s t m h =
      bind-returns (at lib message (codes "payload")) _ s m.payload s
        (at-member message m.payload (codes "payload") s m.at_payload)
      ∙ bind-returns (at lib m.payload (codes "username")) _ s m.user s
          (at-member m.payload m.user (codes "username") s m.at_user)
      ∙ bind-returns (attempt (lib.to_text m.user)) _ s username s
          (attempt-done (lib.to_text m.user) username s m.user_text)
      ∙ bind-returns (at lib m.payload (codes "password")) _ s m.word s
          (at-member m.payload m.word (codes "password") s m.at_word)
      ∙ bind-returns (attempt (lib.to_text m.word)) _ s password s
          (attempt-done (lib.to_text m.word) password s m.word_text)
      ∙ bind-returns (attempt (lib.value_flag m.payload (codes "remember_me") false)) _ s remember s
          (attempt-done (lib.value_flag m.payload (codes "remember_me") false) remember s m.flag)
      ∙ bind-blocked (authenticate os (sanitize_input username) password remember client_ip r) _ s t
          h

  -- A login message with the right password, from an address that is not locked out and while no
  -- other thread is inside the manager, is never answered: the handler does not return, and its
  -- thread keeps the credentials mutex. The user name has at most 256 characters, all of them ones
  -- that user names may have, and the two texts pass the checks of the handler.
  pub handle_login_message-hangs :
      (os : Platform) (message : J) (client_id client_ip : Bytes) (r : Readings) (now : ℕ)
      (username password : Bytes) (remember : Bool) (user : UserCredentials) (s : LoginManager)
      → IsLogin message username password remember
      → are_plausible username password ≡ true
      → length username ≤ 256
      → IsIdle s
      → locked_at r.checked_at (lookup client_ip s.login_attempts) ≡ false
      → lookup username s.users ≡ some user
      → eqb (hash_password os password user.salt) user.password_hash ≡ true
      → handle_login_message lib os message client_id client_ip r now s
        ≡ blocked (stuck_login user username remember client_ip r s)
  unfolding handle_login_message are_plausible
  handle_login_message-hangs os message client_id client_ip r now username password remember user s
        m plausible short idle free found right =
      let named =
        sanitize_input-user username (ground (arith, plausible)) ∙ take_all 256 username short in
      let waits =
        login_validated-waits os message client_id client_ip r now username password remember s
          (stuck_login user username remember client_ip r s) m
          (rw named (
            authenticate-right os username password remember client_ip r s user idle free found
              right)) in
      let check = validate_login_input lib message in
      let go = λ (valid : Bool).
        if valid
        then login_validated lib os message client_id client_ip r now
        else respond_error lib (codes "Invalid login data format") in
      caught-blocked (check >>= go) (λ e. respond_error lib (codes "Login processing error: " ++ e))
        s (stuck_login user username remember client_ip r s)
        (bind-returns check go s true s (
            validate_login_input-plausible message username password remember s m
            ∙ ap (λ b. returns b s) plausible)
          ∙ waits)
