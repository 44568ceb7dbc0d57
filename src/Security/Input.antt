-- ===== src/Security/Input.antt =====
-- mecanisms/login/security_utils.cpp: isValidUsername, isValidSessionToken, sanitizeString.
pub mod Sanitize
use ur_webif.Base.{
  ℕ, Bool, false, not, ◌&&◌, ◌||◌, [], ◌∷◌, ◌++◌, Bytes, leb, ltb, ◌==◌, if◌then◌else◌, length,
  all_of, is_empty,
}
use ur_webif.Security.Address.{within, is_digit, is_hex_digit}

-- [a-zA-Z0-9._-]
abbrev pub is_name_char : ℕ → Bool
is_name_char c =
    within b'a' b'z' c || within b'A' b'Z' c || is_digit c || c == b'.' || c == b'_' || c == b'-'

unfoldable pub is_valid_username : Bytes → Bool
is_valid_username username =
    if is_empty username || ltb 50 (length username)
    then false
    else not (is_empty username) && all_of is_name_char username

unfoldable pub is_valid_session_token : Bytes → Bool
is_valid_session_token token =
    if is_empty token || not (length token == 128)
    then false
    else not (is_empty token) && all_of is_hex_digit token

abbrev pub is_printable : ℕ → Bool
is_printable c = leb 32 c && leb c 126

-- The loop over the input, with what is sanitized so far.
unfoldable pub sanitize_loop : ℕ → Bytes → Bytes → Bytes
sanitize_loop max_length sanitized [] = sanitized
sanitize_loop max_length sanitized (c ∷ cs) =
    let sanitized' = if is_printable c then sanitized ++ c ∷ [] else sanitized in
    let rest = sanitize_loop max_length sanitized' cs in
    if leb max_length (length sanitized') then sanitized' else rest

unfoldable pub sanitize_string : Bytes → ℕ → Bytes
unfolding sanitize_loop
sanitize_string input max_length = sanitize_loop max_length [] input
