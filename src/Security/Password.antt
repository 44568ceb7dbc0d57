-- ===== src/Security/Password.antt =====
-- mecanisms/login/security_utils.cpp: evaluatePasswordStrength and isPasswordSecure. Characters
-- are classified as in the "C" locale.
pub mod Strength
use ur_webif.Base.{
  ℕ, ◌+◌, ◌-◌, Bool, false, not, ◌&&◌, ◌||◌, List, [], ◌∷◌, Bytes, codes, leb, ◌==◌, if◌then◌else◌,
  length, any_of, find?, is_some,
}
use ur_webif.Security.Address.{within, is_digit}

pub data PasswordStrength : Type 0 where
  weak medium strong very_strong : PasswordStrength

-- The value of the enumerator.
abbrev pub rank : PasswordStrength → ℕ
rank weak = 0
rank medium = 1
rank strong = 2
rank very_strong = 3

abbrev is_lower : ℕ → Bool
is_lower = within b'a' b'z'

abbrev is_upper : ℕ → Bool
is_upper = within b'A' b'Z'

abbrev is_special : ℕ → Bool
is_special c = not (is_lower c || is_upper c || is_digit c) && not (c == b' ')

-- (.)\1{2,}: a character, not a line end, three times in a row.
unfoldable pub has_repeats : Bytes → Bool
has_repeats (a ∷ b ∷ c ∷ rest) =
    (a == b && b == c && not (a == b'\n' || a == b'\r')) || has_repeats (b ∷ c ∷ rest)
has_repeats _ = false

-- One of the alternatives stands somewhere in the text.
abbrev pub contains_any : List Bytes → Bytes → Bool
contains_any needles s = any_of (λ needle. is_some (find? needle s)) needles

abbrev number_runs : List Bytes
number_runs =
    codes "012"
    ∷ codes "123"
    ∷ codes "234"
    ∷ codes "345"
    ∷ codes "456"
    ∷ codes "567"
    ∷ codes "678"
    ∷ codes "789"
    ∷ codes "890"
    ∷ []

abbrev letter_runs : List Bytes
letter_runs =
    codes "abc"
    ∷ codes "bcd"
    ∷ codes "cde"
    ∷ codes "def"
    ∷ codes "efg"
    ∷ codes "fgh"
    ∷ codes "ghi"
    ∷ codes "hij"
    ∷ codes "ijk"
    ∷ []

unfoldable pub has_weak_pattern : Bytes → Bool
unfolding has_repeats
has_weak_pattern password =
    has_repeats password || contains_any number_runs password || contains_any letter_runs password

abbrev pub point : Bool → ℕ
point b = if b then 1 else 0

-- The score before the deduction.
unfoldable pub base_score : Bytes → ℕ
base_score password =
    point (leb 8 (length password))
    + point (leb 12 (length password))
    + point (leb 16 (length password))
    + point (any_of is_lower password)
    + point (any_of is_upper password)
    + point (any_of is_digit password)
    + point (any_of is_special password)

-- The source's `score` is an `int`; a score below 0 is 0 here, which no test tells apart.
unfoldable pub evaluate_password_strength : Bytes → PasswordStrength
evaluate_password_strength password =
    let score =
      if has_weak_pattern password then base_score password - 2 else base_score password in
    if leb 6 score
    then very_strong
    else if leb 4 score
    then strong
    else if leb 2 score
    then medium
    else weak

unfoldable pub is_password_secure : Bytes → PasswordStrength → Bool
is_password_secure password min_strength =
    leb (rank min_strength) (rank (evaluate_password_strength password))
