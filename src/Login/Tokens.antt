-- ===== src/Login/Tokens.antt =====
-- generateSessionToken of mecanisms/login/login_manager.cpp (64 random bytes in hexadecimal)
-- against the check isValidSessionToken of mecanisms/login/security_utils.cpp.
use ur_webif.Base.{◌*◌, ◌<◌, true, [], ◌∷◌, Bytes, ◌≡◌, refl, arith, length, all_of}
use ur_webif.Login.Auth.{hex}
use ur_webif.Security.Address.{is_hex_digit}
use ur_webif.Security.Input.{is_valid_session_token}

-- Every number is a byte.
abbrev pub AreBytes : Bytes → Type 0
AreBytes [] = Unit
AreBytes (b ∷ bs) = (b < 256) × AreBytes bs

pub length-hex : (bs : Bytes) → length (hex bs) ≡ 2 * length bs
unfolding hex
length-hex [] = refl
length-hex (b ∷ bs) = omega (arith, length-hex bs)

hex-digits : (bs : Bytes) → AreBytes bs → all_of is_hex_digit (hex bs) ≡ true
unfolding hex
hex-digits [] h = refl
hex-digits (b ∷ bs) h = ground (arith, hex-digits bs h.1)

-- Each token that a login generates from 64 random bytes is one that `isValidSessionToken` accepts.
pub is_valid_session_token-hex :
    (token_bytes : Bytes)
    → length token_bytes ≡ 64
    → AreBytes token_bytes
    → is_valid_session_token (hex token_bytes) ≡ true
unfolding is_valid_session_token
is_valid_session_token-hex token_bytes n h =
    let long : length (hex token_bytes) ≡ 128 = omega (arith, length-hex token_bytes) in
    ground (arith, long, hex-digits token_bytes h)
