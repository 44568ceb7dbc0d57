-- ===== src/Security/Address.antt =====
-- mecanisms/login/security_utils.cpp: isValidIPAddress, isPrivateIPAddress, extractClientIP.
-- The regular expressions are written out as tests on the parts of the address.
pub mod Octets
use ur_webif.Base.{
  ℕ, Bool, true, false, not, ◌&&◌, ◌||◌, none, some, List, [], ◌∷◌, Bytes, codes, eqb, leb, ◌==◌,
  if◌then◌else◌, length, all_of, take, find?, starts_with, is_empty, is_blank, skip_while,
  drop_last_while,
}

abbrev pub within : ℕ → ℕ → ℕ → Bool
within lo hi c = leb lo c && leb c hi

abbrev pub is_digit : ℕ → Bool
is_digit = within b'0' b'9'

abbrev pub is_hex_digit : ℕ → Bool
is_hex_digit c = within b'0' b'9' c || within b'a' b'f' c || within b'A' b'F' c

-- The parts of a text between the separators; as many as separators, and one more.
unfoldable pub split_on : ℕ → Bytes → List Bytes
split_on sep [] = [] ∷ []
split_on sep (c ∷ cs) = elim (split_on sep cs) [
  | [] ↦ []
  | part ∷ parts ↦ if c == sep then [] ∷ part ∷ parts else (c ∷ part) ∷ parts
]

-- 25[0-5]|2[0-4][0-9]|[01]?[0-9][0-9]?
unfoldable pub is_octet : Bytes → Bool
is_octet [] = false
is_octet (a ∷ []) = is_digit a
is_octet (a ∷ b ∷ []) = is_digit a && is_digit b
is_octet (a ∷ b ∷ c ∷ []) =
    (a == b'2' && b == b'5' && within b'0' b'5' c)
    || (a == b'2' && within b'0' b'4' b && is_digit c)
    || (within b'0' b'1' a && is_digit b && is_digit c)
is_octet (a ∷ b ∷ c ∷ d ∷ rest) = false

-- Four octets joined by dots.
unfoldable pub is_ipv4 : Bytes → Bool
unfolding is_octet split_on
is_ipv4 ip = length (split_on b'.' ip) == 4 && all_of is_octet (split_on b'.' ip)

-- [0-9a-fA-F]{1,4}
abbrev pub is_group : Bytes → Bool
is_group part = leb 1 (length part) && leb (length part) 4 && all_of is_hex_digit part

-- Eight groups joined by colons, or "::1", or "::".
unfoldable pub is_ipv6 : Bytes → Bool
unfolding split_on
is_ipv6 ip =
    (length (split_on b':' ip) == 8 && all_of is_group (split_on b':' ip))
    || eqb ip (codes "::1")
    || eqb ip (codes "::")

unfoldable pub is_valid_ip_address : Bytes → Bool
unfolding is_ipv4 is_ipv6
is_valid_ip_address ip = if is_ipv4 ip then true else is_ipv6 ip

-- 172.16.0.0/12: "172.", then 1[6-9], 2[0-9] or 3[01], then a dot.
abbrev in_172_block : Bytes → Bool
in_172_block (a ∷ b ∷ dot ∷ rest) =
    ((a == b'1' && within b'6' b'9' b)
      || (a == b'2' && is_digit b)
      || (a == b'3' && within b'0' b'1' b))
    && dot == b'.'
in_172_block _ = false

abbrev after_prefix : Bytes → Bytes → Bytes
after_prefix [] s = s
after_prefix (n ∷ ns) [] = []
after_prefix (n ∷ ns) (c ∷ cs) = after_prefix ns cs

unfoldable pub is_private_ip_address : Bytes → Bool
is_private_ip_address ip =
    starts_with (codes "10.") ip
    || starts_with (codes "192.168.") ip
    || (starts_with (codes "172.") ip && in_172_block (after_prefix (codes "172.") ip))
    || starts_with (codes "127.") ip
    || starts_with (codes "169.254.") ip

-- `erase(0, find_first_not_of(" \t"))`, then `erase(find_last_not_of(" \t") + 1)`.
abbrev pub trim : Bytes → Bytes
trim s = drop_last_while is_blank (skip_while is_blank s)

-- The text up to the first comma.
abbrev pub first_entry : Bytes → Bytes
first_entry header = elim (find? (codes ",") header) [
  | none ↦ header
  | some comma_pos ↦ take comma_pos header
]

unfoldable pub extract_client_ip : Bytes → Bytes → Bytes
extract_client_ip forwarded_header remote_addr =
    let first_ip = trim (first_entry forwarded_header) in
    if not (is_empty forwarded_header) && is_valid_ip_address first_ip
    then first_ip
    else if is_valid_ip_address remote_addr
    then remote_addr
    else codes "unknown"
