-- ===== src/Credentials/Cipher.antt =====
-- src/credential_manager.cpp: encrypt, decrypt and generateEncryptionKey.
pub mod RoundTrip
use Prim.Native.Nat.{bit_xor}
use ur_webif.Base.{
  ℕ, zero, suc, ◌+◌, ◌-◌, ◌*◌, ◌%◌, Bool, true, false, ◌&&◌, ◌||◌, Option, none, some, List, [],
  ◌∷◌, Bytes, codes, ◌==◌, if◌then◌else◌, length, get_or, skip_while,
}
use ur_webif.Json.{Attempt, done, threw}
use ur_webif.Login.Auth.{hex}
use ur_webif.Security.Address.{within}

abbrev pub encryption_key : Bytes
encryption_key = codes "ur-webif-default-encryption-key-2025"

-- `result[i] ^= key[i % key.length()]` for the bytes from position `i` on.
unfoldable pub xor_key : Bytes → ℕ → Bytes → Bytes
xor_key key i [] = []
xor_key key i (c ∷ cs) = bit_xor c (get_or key (i % length key) 0) ∷ xor_key key (i + 1) cs

unfoldable pub encrypt : Bytes → Bytes → Bytes
unfolding xor_key hex
encrypt text key = hex (xor_key key 0 text)

abbrev hex_value : ℕ → Option ℕ
hex_value c =
    if within b'0' b'9' c
    then some (c - 48)
    else if within b'a' b'f' c
    then some (c - 87)
    else if within b'A' b'F' c
    then some (c - 55)
    else none

-- The digits at the front, behind digits of the value `n`.
abbrev hex_digits : ℕ → Bytes → ℕ
hex_digits n [] = n
hex_digits n (c ∷ cs) = elim (hex_value c) [ none ↦ n | some d ↦ hex_digits (n * 16 + d) cs ]

-- The value of the digits, when there is one.
abbrev unsigned_16 : Bytes → Option ℕ
unsigned_16 [] = none
unsigned_16 (c ∷ cs) = elim (hex_value c) [ none ↦ none | some d ↦ some (hex_digits d cs) ]

abbrev negated : Option ℕ → Option ℕ
negated none = none
negated (some n) = some ((256 - n) % 256)

abbrev signed_16 : Bytes → Option ℕ
signed_16 [] = none
signed_16 (c ∷ cs) =
    if c == b'-'
    then negated (unsigned_16 cs)
    else if c == b'+'
    then unsigned_16 cs
    else unsigned_16 (c ∷ cs)

-- `isspace` of the "C" locale.
abbrev is_space : ℕ → Bool
is_space c = c == b' ' || within 9 13 c

abbrev byte_or_throw : Option ℕ → Attempt ℕ
byte_or_throw none = threw (codes "stoi")
byte_or_throw (some n) = done n

-- `static_cast<unsigned char>(std::stoi(byte_str, nullptr, 16))` of at most two characters; a prefix
-- "0x" without digits behind it is the digit 0.
abbrev pub byte_16 : Bytes → Attempt ℕ
byte_16 text = byte_or_throw (signed_16 (skip_while is_space text))

-- A byte before the bytes that the rest gives.
abbrev pub put_byte : Attempt ℕ → Attempt Bytes → Attempt Bytes
put_byte (threw e) more = threw e
put_byte (done b) (threw e) = threw e
put_byte (done b) (done bs) = done (b ∷ bs)

-- The loop of `decrypt` over pairs of characters.
unfoldable pub from_hex : Bytes → Attempt Bytes
from_hex [] = done []
from_hex (a ∷ []) = put_byte (byte_16 (a ∷ [])) (done [])
from_hex (a ∷ b ∷ more) = put_byte (byte_16 (a ∷ b ∷ [])) (from_hex more)

unfoldable pub decrypt : Bytes → Bytes → Attempt Bytes
unfolding xor_key from_hex
decrypt text key = elim (from_hex text) [
  | threw e ↦ threw e
  | done binary_data ↦ done (xor_key key 0 binary_data)
]
