-- ===== src/Login/Handler.antt =====
-- mecanisms/login/login_handler.cpp: the messages of a client, and the calls of LoginManager.
pub mod Unanswered
use ur_webif.Base.{
  ℕ, Bool, true, false, not, ◌&&◌, ◌||◌, List, [], ◌∷◌, ◌++◌, Bytes, codes, ltb, leb, ◌==◌, length,
  take, is_empty, all_of, keep_if, skip_while, drop_last_while, if◌then◌else◌,
}
use ur_webif.Run.{Call, ◌>>=◌, ◌>>◌, pure, try_catch}
use ur_webif.Json.{Attempt, done, threw, attempt, JsonLibrary}
use ur_webif.Security.Address.{within, is_digit}
use ur_webif.Login.State.{LoginResult, LoginManager, Platform}
use ur_webif.Login.Auth.{Readings, authenticate}
use ur_webif.Login.Sessions.{
  validate_session, logout, get_username_from_session, cleanup_expired_sessions,
}

-- `iscntrl` and `isspace` of the "C" locale.
abbrev pub is_control : ℕ → Bool
is_control c = ltb c 32 || c == 127

abbrev pub is_space : ℕ → Bool
is_space c = c == b' ' || within 9 13 c

unfoldable pub sanitize_input : Bytes → Bytes
sanitize_input input =
    let sanitized =
      drop_last_while is_space (skip_while is_space (keep_if (λ c. not (is_control c)) input)) in
    if ltb 256 (length sanitized) then take 256 sanitized else sanitized

-- [a-zA-Z0-9_-]
abbrev pub is_user_char : ℕ → Bool
is_user_char c = within b'a' b'z' c || within b'A' b'Z' c || is_digit c || c == b'_' || c == b'-'

-- The checks of the two texts.
unfoldable pub are_plausible : Bytes → Bytes → Bool
are_plausible username password =
    if is_empty username || is_empty password
    then false
    else if not (all_of is_user_char username)
    then false
    else not (ltb (length password) 3 || ltb 128 (length password))

module _ {J : Type 0} (lib : JsonLibrary J) where
  -- `value[key]` of a constant value: without the key the source's behaviour is not defined, and
  -- here it is what `member` of the library does.
  abbrev pub at : J → Bytes → Call LoginManager J
  at value key = attempt (lib.member value key) >>= λ found. pure (found.0)

  unfoldable pub validate_payload : J → Call LoginManager Bool
  unfolding are_plausible
  validate_payload payload =
      if not (lib.contains payload (codes "username"))
        || not (lib.contains payload (codes "password"))
      then pure false
      else (do
        username ← at payload (codes "username")
        password ← at payload (codes "password")
        if not (lib.is_string username) || not (lib.is_string password) then pure false else (do
          username_text ← attempt (lib.to_text username)
          password_text ← attempt (lib.to_text password)
          pure (are_plausible username_text password_text)))

  unfoldable pub validate_login_input : J → Call LoginManager Bool
  unfolding validate_payload
  validate_login_input message =
      try_catch
        (if not (lib.contains message (codes "payload"))
          then pure false
          else at message (codes "payload") >>= validate_payload)
        (λ _. pure false)

  abbrev pub set : Bytes → J → J → Call LoginManager J
  set key value response = attempt (lib.assign response key value)

  -- `response["payload"][key] = value`
  abbrev pub set_payload : Bytes → J → J → Call LoginManager J
  set_payload key value response = do
    (payload, response) ← attempt (lib.member response (codes "payload"))
    payload ← attempt (lib.assign payload key value)
    attempt (lib.assign response (codes "payload") payload)

  -- The first three members.
  abbrev pub begin_response : Bytes → Bool → Bytes → Call LoginManager J
  begin_response type success message =
      set (codes "type") (lib.text type) lib.null
      >>= set (codes "success") (lib.flag success)
      >>= set (codes "message") (lib.text message)

  unfoldable pub build_login_response : LoginResult → Call LoginManager J
  build_login_response result = do
    response ← begin_response (codes "login_response") result.success result.message
    if result.success
        then (set_payload (codes "session_token") (lib.text result.session_token) response
            >>= set_payload (codes "authenticated") (lib.flag true))
        else (set_payload (codes "remaining_attempts") (lib.integer result.remaining_attempts)
              response
            >>= set_payload (codes "authenticated") (lib.flag false))

  unfoldable pub build_logout_response : Bool → Call LoginManager J
  build_logout_response success = do
    response ←
        begin_response (codes "logout_response") success
          (if success then codes "Logout successful" else codes "Logout failed")
    set_payload (codes "authenticated") (lib.flag false) response

  unfoldable pub build_session_validation_response : Bool → Bytes → Call LoginManager J
  build_session_validation_response valid username = do
    response ←
        begin_response (codes "session_validation_response") valid
          (if valid then codes "Session is valid" else codes "Session is invalid or expired")
    response ← set_payload (codes "authenticated") (lib.flag valid) response
    if valid && not (is_empty username)
        then set_payload (codes "username") (lib.text username) response
        else pure response

  unfoldable pub build_error_response : Bytes → Call LoginManager J
  build_error_response error_message = do
    response ← begin_response (codes "login_error") false error_message
    set_payload (codes "authenticated") (lib.flag false) response

  -- A call of `response_callback`: the text that it gets.
  abbrev pub respond : J → Call LoginManager Bytes
  respond response = attempt (lib.dump response)

  abbrev pub respond_error : Bytes → Call LoginManager Bytes
  respond_error error_message = build_error_response error_message >>= respond

  -- What is common to the ends of the three handlers.
  unfoldable pub respond_to : Bytes → ℕ → J → Call LoginManager Bytes
  respond_to client_id now response =
      set (codes "client_id") (lib.text client_id) response
      >>= set (codes "timestamp") (lib.number now)
      >>= respond

  unfoldable pub login_validated :
      Platform → J → Bytes → Bytes → Readings → ℕ → Call LoginManager Bytes
  unfolding build_login_response respond_to sanitize_input
  login_validated os message client_id client_ip r now = do
    payload ← at message (codes "payload")
    username ← at payload (codes "username")
    username_text ← attempt (lib.to_text username)
    password ← at payload (codes "password")
    password_text ← attempt (lib.to_text password)
    remember_me ← attempt (lib.value_flag payload (codes "remember_me") false)
    result ← authenticate os (sanitize_input username_text) password_text remember_me client_ip r
    response ← build_login_response result
    respond_to client_id now response

  unfoldable pub handle_login_message :
      Platform → J → Bytes → Bytes → Readings → ℕ → Call LoginManager Bytes
  unfolding validate_login_input login_validated build_error_response
  handle_login_message os message client_id client_ip r now =
      try_catch
        (do
          valid ← validate_login_input message
          if valid
              then login_validated os message client_id client_ip r now
              else respond_error (codes "Invalid login data format"))
        (λ e. respond_error (codes "Login processing error: " ++ e))

  -- The token of the payload, empty where there is none.
  unfoldable pub given_token : J → Call LoginManager Bytes
  unfolding sanitize_input
  given_token message = do
    payload ← at message (codes "payload")
    if lib.contains payload (codes "session_token")
        then (do
          token ← at payload (codes "session_token")
          token_text ← attempt (lib.to_text token)
          pure (sanitize_input token_text))
        else pure []

  unfoldable pub handle_logout_message : J → Bytes → ℕ → Call LoginManager Bytes
  unfolding given_token build_logout_response respond_to build_error_response
  handle_logout_message message client_id now =
      try_catch
        (do
          session_token ← given_token message
          success ← if is_empty session_token then pure false else logout session_token
          response ← build_logout_response success
          respond_to client_id now response)
        (λ e. respond_error (codes "Logout processing error: " ++ e))

  unfoldable pub handle_session_validation : J → Bytes → ℕ → ℕ → Call LoginManager Bytes
  unfolding given_token build_session_validation_response respond_to build_error_response
  handle_session_validation message client_id clock now =
      try_catch
        (do
          session_token ← given_token message
          valid ←
              if is_empty session_token then pure false else validate_session session_token clock
          username ← if valid then get_username_from_session session_token else pure []
          response ← build_session_validation_response valid username
          respond_to client_id now response)
        (λ e. respond_error (codes "Session validation error: " ++ e))

unfoldable pub is_authenticated : Bytes → ℕ → Call LoginManager Bool
is_authenticated session_token now =
    if is_empty session_token then pure false else validate_session session_token now

unfoldable pub get_user_from_session : Bytes → Call LoginManager Bytes
get_user_from_session session_token = get_username_from_session session_token

unfoldable pub perform_maintenance : ℕ → Call LoginManager (Unit {0})
perform_maintenance now = cleanup_expired_sessions now
