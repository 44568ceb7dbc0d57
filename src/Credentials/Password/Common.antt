-- ===== src/Credentials/Password/Common.antt =====
-- The check for common passwords against the check for special characters.
use ur_webif.Base.{
  all_below, all_below-lt, ℕ, ◌+◌, Bool, true, false, not, ◌&&◌, List, [], ◌∷◌, Bytes, map, ◌≡◌,
  refl, ◌∙◌, ap, none, some, codes, arith, eqb, eqb_iff, any_of, all_of, if◌then◌else◌, Bool-cases,
  inl, inr,
}
use ur_webif.Security.Address.{within}
use ur_webif.Credentials.Password.{
  has_minimum_length, has_uppercase, has_lowercase, has_digit, validate_password_strength,
  is_special, has_special_char, to_lower, common_passwords, is_not_common_password,
}

abbrev plain_letter : ℕ → Bool
plain_letter c =
    if within b'A' b'Z' c then not (is_special c) && not (is_special (c + 32)) else true

letter_table : all_below 91 plain_letter ≡ true
unfolding all_below is_special
letter_table = refl

letter-not_special :
    (c : ℕ) → within b'A' b'Z' c ≡ true → (is_special c ≡ false) × (is_special (c + 32) ≡ false)
letter-not_special c upper =
    let plain = all_below-lt 91 plain_letter c letter_table (ground (arith, upper)) in
    let clean = rw upper at plain in ground (arith, clean)

is_special-to_lower : (c : ℕ) → is_special (to_lower c) ≡ is_special c
is_special-to_lower c = elim (Bool-cases (within b'A' b'Z' c)) [
  | inl upper ↦
      (let (plain, lower) = letter-not_special c upper in
        rw (to_lower, upper) (rw (plain, lower) refl))
  | inr other ↦ rw (to_lower, other) refl
]

has_special_char-lower :
    (password : Bytes) → has_special_char (map to_lower password) ≡ has_special_char password
unfolding has_special_char
has_special_char-lower [] = refl
has_special_char-lower (c ∷ cs) = rw (is_special-to_lower c, has_special_char-lower cs) refl

common_table : all_of (λ common. not (has_special_char common)) common_passwords ≡ true
unfolding has_special_char is_special
common_table = refl

any_of-special :
    (commons : List Bytes) (text : Bytes)
    → all_of (λ common. not (has_special_char common)) commons ≡ true
    → has_special_char text ≡ true
    → any_of (eqb text) commons ≡ false
any_of-special [] text h k = refl
any_of-special (common ∷ more) text h k = elim (Bool-cases (eqb text common)) [
  | inl same ↦ (let e = (eqb_iff text common).0 same in ground (arith, h, ap has_special_char e, k))
  | inr other ↦ rw other (any_of-special more text (ground (arith, h)) k)
]

-- The verdict on a new password is that of the five checks of its length and its characters, in
-- their order: each password gets the message of the first of them that fails, and one that passes
-- them all is accepted. So the list of common passwords refuses none, and its message is never given.
pub validate_password_strength-common :
    (password : Bytes)
    → validate_password_strength password ≡ (
        if not (has_minimum_length password)
        then some (codes "Password must be at least 8 characters long")
        else if not (has_uppercase password)
        then some (codes "Password must contain at least one uppercase letter")
        else if not (has_lowercase password)
        then some (codes "Password must contain at least one lowercase letter")
        else if not (has_digit password)
        then some (codes "Password must contain at least one digit")
        else if not (has_special_char password)
        then some (codes "Password must contain at least one special character (!@#$%^&*)")
        else none)
unfolding validate_password_strength is_not_common_password
validate_password_strength-common password = elim (Bool-cases (has_special_char password)) [
  | inl special ↦
      (let uncommon =
          any_of-special common_passwords (map to_lower password) common_table
            (has_special_char-lower password ∙ special) in
        rw uncommon refl)
  | inr plain ↦ rw plain refl
]
