-- ===== src/Security/Address/Octets.antt =====
-- The regular expression for an octet against the number that the digits stand for.
use ur_webif.Base.{
  ℕ, ◌+◌, ◌*◌, ◌-◌, ◌≤◌, true, false, [], ◌∷◌, Bytes, codes, ◌≡◌, ◌↔◌, ◌⊎◌, arith, length, all_of,
}
use ur_webif.Security.Address.{is_octet, is_digit, is_valid_ip_address, extract_client_ip}

abbrev value_from : ℕ → Bytes → ℕ
value_from n [] = n
value_from n (c ∷ cs) = value_from (10 * n + (c - 48)) cs

-- The number that the decimal digits stand for.
abbrev pub decimal : Bytes → ℕ
decimal = value_from 0

-- One to three decimal digits for a number of at most 255.
abbrev pub IsByteNumeral : Bytes → Type 0
IsByteNumeral part =
    (1 ≤ length part) × (length part ≤ 3) × (all_of is_digit part ≡ true) × (decimal part ≤ 255)

-- The pattern for an octet matches exactly the texts of one to three decimal digits whose number
-- is at most 255.
pub is_octet_iff : (part : Bytes) → (is_octet part ≡ true) ↔ IsByteNumeral part
unfolding is_octet
is_octet_iff [] = ground arith
is_octet_iff (a ∷ []) = ground arith
is_octet_iff (a ∷ b ∷ []) = ground arith
is_octet_iff (a ∷ b ∷ c ∷ []) = (λ h. ground arith, λ h. ground arith)
is_octet_iff (a ∷ b ∷ c ∷ d ∷ rest) = (λ h. cc, λ h. absurd (omega arith))

-- `extractClientIP` gives an address that `isValidIPAddress` accepts, whatever a client writes into
-- the header, or else "unknown", and that only where the peer's address is not accepted.
pub extract_client_ip-valid :
    (header remote : Bytes)
    → (is_valid_ip_address (extract_client_ip header remote) ≡ true)
      ⊎ ((extract_client_ip header remote ≡ codes "unknown") × (is_valid_ip_address remote ≡ false))
unfolding extract_client_ip
extract_client_ip-valid header remote = ground arith
