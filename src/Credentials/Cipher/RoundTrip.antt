-- ===== src/Credentials/Cipher/RoundTrip.antt =====
-- Decrypting what was encrypted with the key of the program.
use Prim.Native.Nat.{bit_xor}
use ur_webif.Base.{
  all_below, all_below-lt, ℕ, zero, suc, ◌+◌, ◌%◌, ◌<◌, Bool, true, false, ◌&&◌, [], ◌∷◌, Bytes,
  ◌≡◌, refl, ◌∙◌, ap, arith, ◌==◌, ==_iff, ltb, ltb→lt, length, get_or, all_of,
}
use ur_webif.Json.{Attempt, done, threw}
use ur_webif.Login.Auth.{hex}
use ur_webif.Login.Tokens.{AreBytes}
use ur_webif.Credentials.Cipher.{
  encryption_key, xor_key, encrypt, from_hex, decrypt, byte_16, put_byte,
}

-- A byte of the key gives a byte, and taken twice it gives back what it was taken to.
abbrev restores : ℕ → ℕ → Bool
restores k x = (bit_xor (bit_xor x k) k == x) && ltb (bit_xor x k) 256

key_table : all_of (λ k. all_below 256 (restores k)) encryption_key ≡ true
unfolding all_below
key_table = refl

all_of-get_or :
    (p : ℕ → Bool) (xs : Bytes) (i : ℕ)
    → all_of p xs ≡ true
    → i < length xs
    → p (get_or xs i 0) ≡ true
all_of-get_or p [] i h lt = absurd (omega arith)
all_of-get_or p (x ∷ xs) zero h lt = ground arith
all_of-get_or p (x ∷ xs) (suc i) h lt = ground (arith, all_of-get_or p xs i)

key_byte : ℕ → ℕ
key_byte i = get_or encryption_key (i % length encryption_key) 0

key_restores : (i x : ℕ) → x < 256 → restores (key_byte i) x ≡ true
unfolding key_byte
key_restores i x h =
    all_below-lt 256 (restores (key_byte i)) x
      (all_of-get_or (λ k. all_below 256 (restores k)) encryption_key (i % length encryption_key)
        key_table (omega arith))
      h

xor_key_twice :
    (i : ℕ) (text : Bytes)
    → AreBytes text
    → xor_key encryption_key i (xor_key encryption_key i text) ≡ text
unfolding xor_key key_byte
xor_key_twice i [] h = refl
xor_key_twice i (c ∷ cs) h =
    let r = key_restores i c h.0 in
    let same = (==_iff (bit_xor (bit_xor c (key_byte i)) (key_byte i)) c).0 (ground (arith, r)) in
    let rest = xor_key_twice (i + 1) cs h.1 in rw (same, rest) refl

xor_key-AreBytes : (i : ℕ) (text : Bytes) → AreBytes text → AreBytes (xor_key encryption_key i text)
unfolding xor_key key_byte
xor_key-AreBytes i [] h = tt
xor_key-AreBytes i (c ∷ cs) h =
    let r = key_restores i c h.0 in
    (ltb→lt (bit_xor c (key_byte i)) 256 (ground (arith, r)), xor_key-AreBytes (i + 1) cs h.1)

abbrev reads_back : ℕ → Attempt ℕ → Bool
reads_back b (done c) = c == b
reads_back b _ = false

byte_table : all_below 256 (λ b. reads_back b (byte_16 (hex (b ∷ [])))) ≡ true
unfolding all_below hex
byte_table = refl

reads_back-done : (b : ℕ) (r : Attempt ℕ) → reads_back b r ≡ true → r ≡ done b
reads_back-done b (threw e) h = ground (arith, h)
reads_back-done b (done c) h = ap done ((==_iff c b).0 h)

byte_16-hex : (b : ℕ) → b < 256 → byte_16 (hex (b ∷ [])) ≡ done b
byte_16-hex b h =
    reads_back-done b _
      (all_below-lt 256 (λ b. reads_back b (byte_16 (hex (b ∷ [])))) b byte_table h)

from_hex-cons :
    (b : ℕ) (bs : Bytes)
    → from_hex (hex (b ∷ bs)) ≡ put_byte (byte_16 (hex (b ∷ []))) (from_hex (hex bs))
unfolding from_hex hex
from_hex-cons b bs = refl

pub from_hex-hex : (bs : Bytes) → AreBytes bs → from_hex (hex bs) ≡ done bs
unfolding from_hex hex
from_hex-hex [] h = refl
from_hex-hex (b ∷ bs) h = from_hex-cons b bs ∙ rw (byte_16-hex b h.0, from_hex-hex bs h.1) refl

-- A text of bytes that is encrypted with the key of the program is what decrypting with the key
-- gives back.
pub decrypt-encrypt :
    (text : Bytes)
    → AreBytes text
    → decrypt (encrypt text encryption_key) encryption_key ≡ done text
unfolding decrypt encrypt
decrypt-encrypt text h =
    rw (decrypt, from_hex-hex (xor_key encryption_key 0 text) (xor_key-AreBytes 0 text h))
      (ap done (xor_key_twice 0 text h))
