-- ===== src/Security/Password/Strength.antt =====
-- What the strength of a password says of it.
use ur_webif.Base.{◌≤◌, Bool, true, false, Bytes, ◌≡◌, arith, length, leb, any_of, ◌+◌}
use ur_webif.Security.Address.{is_digit}
use ur_webif.Security.Password.{
  strong, very_strong, evaluate_password_strength, base_score, has_weak_pattern, is_password_secure,
  point, is_lower, is_upper, is_special,
}

point-le : (b : Bool) → point b ≤ 1
point-le true = omega arith
point-le false = omega arith

-- The four kinds of characters count one each, and so does each of three lengths.
base_score-le :
    (password : Bytes)
    → base_score password
      ≤ 4
        + point (leb 8 (length password))
        + point (leb 12 (length password))
        + point (leb 16 (length password))
unfolding base_score
base_score-le password = omega (
  arith,
  point-le (any_of is_lower password),
  point-le (any_of is_upper password),
  point-le (any_of is_digit password),
  point-le (any_of is_special password),
)

-- A password that counts as very strong has at least twelve characters, and none of the common
-- patterns stands in it.
very_strong-long :
    (password : Bytes)
    → evaluate_password_strength password ≡ very_strong
    → (12 ≤ length password) × (has_weak_pattern password ≡ false)
unfolding evaluate_password_strength
very_strong-long password h = ground (arith, base_score-le password)

-- A password with one of the common patterns that still counts as strong has at least twelve
-- characters, and does not count as very strong.
has_weak_pattern-strength :
    (password : Bytes)
    → has_weak_pattern password ≡ true
    → is_password_secure password strong ≡ true
    → (12 ≤ length password) × (is_password_secure password very_strong ≡ false)
unfolding is_password_secure evaluate_password_strength
has_weak_pattern-strength password h k = ground (arith, base_score-le password)
