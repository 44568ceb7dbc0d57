-- ===== src/Vpn/Endpoint.antt =====
-- extractServer and extractPort of WireGuardParser, on the value of Endpoint.
pub mod Printed
use ur_webif.Base.{
  ℕ, zero, suc, ◌+◌, ◌*◌, ◌-◌, ◌^◌, ◌==◌, Bool, true, false, not, ◌&&◌, ◌||◌, ltb, Option, none,
  some, List, [], ◌∷◌, ◌++◌, Bytes, codes, find?, take, drop, length, is_empty, skip_while,
  if◌then◌else◌, ℤ, pos, negsuc,
}

abbrev pub is_digit : ℕ → Bool
is_digit c = not (ltb c b'0') && not (ltb b'9' c)

abbrev pub is_space : ℕ → Bool
is_space c = c == b' ' || not (ltb c 9) && not (ltb 13 c)

-- The value of the digits at the front, behind those that were read.
unfoldable pub digits : Bytes → ℕ → ℕ
digits [] n = n
digits (c ∷ cs) n = let rest = digits cs (10 * n + (c - b'0')) in if is_digit c then rest else n

abbrev starts_with_digit : Bytes → Bool
starts_with_digit [] = false
starts_with_digit (c ∷ cs) = is_digit c

-- The bounds of `int`.
abbrev positive : ℕ → Option ℤ
positive n = if ltb n (2 ^ 31) then some (pos n) else none

abbrev negative : ℕ → Option ℤ
negative zero = some (pos 0)
negative (suc n) = if ltb n (2 ^ 31) then some (negsuc n) else none

abbrev unsigned : (ℕ → Option ℤ) → Bytes → Option ℤ
unsigned make s = if starts_with_digit s then make (digits s 0) else none

abbrev signed : Bytes → Option ℤ
signed [] = none
signed (c ∷ cs) =
    if c == b'-'
    then unsigned negative cs
    else if c == b'+'
    then unsigned positive cs
    else unsigned positive (c ∷ cs)

-- `std::stoi`, nothing where it throws.
unfoldable pub stoi : Bytes → Option ℤ
unfolding digits
stoi s = signed (skip_while is_space s)

abbrev pub port_or : ℕ → Bytes → ℤ
port_or default s = elim (stoi s) [ none ↦ pos default | some n ↦ n ]

-- What is behind the last occurrence of a character.
unfoldable pub behind_last : ℕ → Bytes → Option Bytes
behind_last c [] = none
behind_last c (x ∷ xs) = elim (behind_last c xs) [
  | some rest ↦ some rest
  | none ↦ if x == c then some xs else none
]

abbrev pub host_of : Bytes → Bytes
host_of endpoint = elim (find? (codes ":") endpoint) [ none ↦ endpoint | some i ↦ take i endpoint ]

unfoldable pub extract_server : Bytes → Bytes
unfolding find?
extract_server [] = []
extract_server (c ∷ cs) =
    if c == b'['
    then elim (find? (codes "]") (c ∷ cs)) [ some i ↦ take (i - 1) cs | none ↦ host_of (c ∷ cs) ]
    else host_of (c ∷ cs)

abbrev pub last_port : Bytes → ℤ
last_port endpoint = elim (behind_last b':' endpoint) [
  | none ↦ pos 51820
  | some s ↦ port_or 51820 s
]

-- The text behind the closing bracket: a port follows if it begins with a colon.
abbrev bracket_port : Bytes → Bytes → ℤ
bracket_port endpoint [] = last_port endpoint
bracket_port endpoint (c ∷ cs) = if c == b':' then port_or 51820 cs else last_port endpoint

unfoldable pub extract_port : Bytes → ℤ
unfolding find? stoi behind_last
extract_port [] = pos 51820
extract_port (c ∷ cs) =
    if c == b'['
    then elim (find? (codes "]") (c ∷ cs)) [
      | some i ↦ bracket_port (c ∷ cs) (drop (suc i) (c ∷ cs))
      | none ↦ last_port (c ∷ cs)
    ]
    else last_port (c ∷ cs)
