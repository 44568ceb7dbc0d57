-- ===== src/Vpn/Endpoint/Printed.antt =====
-- Endpoints as they are written, host and port.
use ur_webif.Base.{
  ℕ, suc, ◌-◌, ◌^◌, ◌<◌, ◌==◌, true, false, not, none, some, [], ◌∷◌, ◌++◌, Bytes, codes, ◌≡◌, ◌≢◌,
  refl, ◌∙◌, arith, find?, starts_with, take, drop, length, all_of, pos, take-length-append,
}
use ur_webif.Vpn.Endpoint.{
  is_digit, digits, stoi, port_or, behind_last, host_of, last_port, extract_server, extract_port,
}

-- The characters of a text are not this one.
abbrev pub Without : ℕ → Bytes → Type 0
Without c s = all_of (λ x. not (x == c)) s ≡ true

host_of-at :
    (endpoint : Bytes) (i : ℕ)
    → find? (codes ":") endpoint ≡ some i
    → host_of endpoint ≡ take i endpoint
host_of-at endpoint i at = rw (host_of, at) refl

last_port-behind :
    (endpoint port : Bytes)
    → behind_last b':' endpoint ≡ some port
    → last_port endpoint ≡ port_or 51820 port
last_port-behind endpoint port behind = rw (last_port, behind) refl

less_one : (n : ℕ) → suc n - 1 ≡ n
less_one n = omega arith

pub drop_past : (s : Bytes) (c : ℕ) (rest : Bytes) → drop (suc (length s)) (s ++ c ∷ rest) ≡ rest
drop_past [] c rest = refl
drop_past (x ∷ s) c rest = drop_past s c rest

apart : (x y : ℕ) → x ≢ y → (x == y) ≡ false
apart x y ne = ground (arith, ne)

pub find?-Without :
    (c : ℕ) (s rest : Bytes) → Without c s → find? (c ∷ []) (s ++ c ∷ rest) ≡ some (length s)
unfolding find? starts_with
find?-Without c [] rest h = ground arith
find?-Without c (x ∷ s) rest h = ground (arith, h, find?-Without c s rest (ground (arith, h)))

behind_last-Without : (c : ℕ) (s : Bytes) → Without c s → behind_last c s ≡ none
unfolding behind_last
behind_last-Without c [] h = refl
behind_last-Without c (x ∷ s) h = ground (arith, h, behind_last-Without c s (ground (arith, h)))

behind_last-append :
    (c : ℕ) (s rest : Bytes) → Without c rest → behind_last c (s ++ c ∷ rest) ≡ some rest
unfolding behind_last
behind_last-append c [] rest h = rw (behind_last-Without c rest h) (ground arith)
behind_last-append c (x ∷ s) rest h = rw (behind_last-append c s rest h) refl

digits-Without : (ds : Bytes) → all_of is_digit ds ≡ true → Without b':' ds
digits-Without [] h = refl
digits-Without (d ∷ ds) h = ground (arith, h, digits-Without ds (ground (arith, h)))

port-digits :
    (d : ℕ) (ds : Bytes)
    → all_of is_digit (d ∷ ds) ≡ true
    → digits (d ∷ ds) 0 < 2 ^ 31
    → port_or 51820 (d ∷ ds) ≡ pos (digits (d ∷ ds) 0)
unfolding stoi
port-digits d ds h small = ground (arith, h, small)

extract-host :
    (c : ℕ) (host : Bytes) (d : ℕ) (ds : Bytes)
    → Without b':' (c ∷ host)
    → c ≢ b'['
    → all_of is_digit (d ∷ ds) ≡ true
    → digits (d ∷ ds) 0 < 2 ^ 31
    → (extract_server ((c ∷ host) ++ b':' ∷ d ∷ ds) ≡ c ∷ host)
      × (extract_port ((c ∷ host) ++ b':' ∷ d ∷ ds) ≡ pos (digits (d ∷ ds) 0))
unfolding extract_server extract_port
extract-host c host d ds free bracket h small =
    let at = find?-Without b':' (c ∷ host) (d ∷ ds) free in
    let behind = behind_last-append b':' (c ∷ host) (d ∷ ds) (digits-Without (d ∷ ds) h) in
    let no_bracket = apart c b'[' bracket in
    (
      rw no_bracket (
          host_of-at ((c ∷ host) ++ b':' ∷ d ∷ ds) _ at
          ∙ take-length-append (c ∷ host) (b':' ∷ d ∷ ds)),
      rw no_bracket
          (last_port-behind ((c ∷ host) ++ b':' ∷ d ∷ ds) _ behind ∙ port-digits d ds h small),
    )

extract-address :
    (address : Bytes) (d : ℕ) (ds : Bytes)
    → Without b']' address
    → all_of is_digit (d ∷ ds) ≡ true
    → digits (d ∷ ds) 0 < 2 ^ 31
    → (extract_server (b'[' ∷ address ++ b']' ∷ b':' ∷ d ∷ ds) ≡ address)
      × (extract_port (b'[' ∷ address ++ b']' ∷ b':' ∷ d ∷ ds) ≡ pos (digits (d ∷ ds) 0))
unfolding extract_server extract_port
extract-address address d ds free h small =
    let at = find?-Without b']' address (b':' ∷ d ∷ ds) free in
    (
      rw at (rw (less_one (length address)) (take-length-append address (b']' ∷ b':' ∷ d ∷ ds))),
      rw at (rw (drop_past address b']' (b':' ∷ d ∷ ds)) (port-digits d ds h small)),
    )

-- A host by its name, of one character at least, or by an address that is written in brackets.
pub data Host : Type 0 where
  named : ℕ → Bytes → Host
  address : Bytes → Host

abbrev pub text_of : Host → Bytes
text_of (named c name) = c ∷ name
text_of (address text) = text

-- Host and port as an endpoint.
abbrev pub written : Host → Bytes → Bytes
written (named c name) port = (c ∷ name) ++ b':' ∷ port
written (address text) port = b'[' ∷ text ++ b']' ∷ b':' ∷ port

abbrev pub IsWritable : Host → Type 0
IsWritable (named c name) = Without b':' (c ∷ name) × (c ≢ b'[')
IsWritable (address text) = Without b']' text

-- For a port below 2 ^ 31 in decimal digits, and a host that is a name without a colon that does not
-- begin with "[", or an address without "]": from name, colon and port, and from the address in
-- brackets, colon and port, extractServer gives the host and extractPort the port.
pub extract-written :
    (host : Host) (d : ℕ) (ds : Bytes)
    → IsWritable host
    → all_of is_digit (d ∷ ds) ≡ true
    → digits (d ∷ ds) 0 < 2 ^ 31
    → (extract_server (written host (d ∷ ds)) ≡ text_of host)
      × (extract_port (written host (d ∷ ds)) ≡ pos (digits (d ∷ ds) 0))
extract-written (named c name) d ds w h small = extract-host c name d ds w.0 w.1 h small
extract-written (address text) d ds w h small = extract-address text d ds w h small
