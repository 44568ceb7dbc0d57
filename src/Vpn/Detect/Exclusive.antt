-- ===== src/Vpn/Detect/Exclusive.antt =====
-- Which protocols a configuration can be taken for at once.
use ur_webif.Base.{
  ℕ, suc, Bool, true, false, ◌||◌, [], ◌∷◌, Bytes, codes, ◌≡◌, refl, sym, Option, none, some, ◌∙◌,
  find?, starts_with, is_some, is_empty, ◌==◌, arith, Bool-cases, inl, inr,
}
use ur_webif.Vpn.Detect.{
  contains, to_lower, lower, is_openvpn_config, is_ikev2_config, is_wireguard_config, VpnProtocol,
  unknown, openvpn, ikev2, wireguard, detected, unambiguous, identify_protocol,
}

starts_with-lower :
    (needle s : Bytes) → starts_with needle s ≡ true → starts_with (lower needle) (lower s) ≡ true
unfolding starts_with
starts_with-lower [] s h = refl
starts_with-lower (n ∷ ns) [] h = h
starts_with-lower (n ∷ ns) (c ∷ cs) h =
    let same = eq_of n c (ground (arith, h)) in
    rw same (ground (arith, starts_with-lower ns cs (ground (arith, h))))
  where
    eq_of : (m k : ℕ) → (m == k) ≡ true → m ≡ k
    eq_of m k e = ground (arith, e)

is_some-next : (i : Option ℕ) → is_some (elim i [ none ↦ none | some j ↦ some (suc j) ]) ≡ is_some i
is_some-next none = refl
is_some-next (some i) = refl

contains-cons :
    (needle : Bytes) (c : ℕ) (cs : Bytes)
    → contains needle (c ∷ cs) ≡ (starts_with needle (c ∷ cs) || contains needle cs)
unfolding contains find?
contains-cons needle c cs = elim (Bool-cases (starts_with needle (c ∷ cs))) [
  | inl e ↦ rw e refl
  | inr e ↦ rw e (is_some-next (find? needle cs))
]

contains-nil : (needle : Bytes) → contains needle [] ≡ is_empty needle
unfolding contains find?
contains-nil [] = refl
contains-nil (c ∷ needle) = refl

-- A text that contains a word contains it in lower case when in lower case.
contains-lower :
    (needle s : Bytes) → contains needle s ≡ true → contains (lower needle) (lower s) ≡ true
contains-lower needle [] h =
    contains-nil (lower needle) ∙ empty-lower needle (sym (contains-nil needle) ∙ h)
  where
    empty-lower : (w : Bytes) → is_empty w ≡ true → is_empty (lower w) ≡ true
    empty-lower [] e = refl
    empty-lower (c ∷ w) e = e
contains-lower needle (c ∷ cs) h =
    contains-cons (lower needle) (to_lower c) (lower cs)
    ∙ ground (
      arith,
      sym (contains-cons needle c cs) ∙ h,
      starts_with-lower needle (c ∷ cs),
      contains-lower needle cs,
    )

wireguard-sections :
    (content : Bytes)
    → is_wireguard_config content ≡ true
    → (contains (codes "[Interface]") content ≡ true) × (contains (codes "[Peer]") content ≡ true)
unfolding is_wireguard_config
wireguard-sections content h = (ground (arith, h), ground (arith, h))

openvpn-refuses :
    (content : Bytes)
    → contains (codes "[interface]") (lower content) ≡ true
    → contains (codes "[peer]") (lower content) ≡ true
    → is_openvpn_config content ≡ false
unfolding is_openvpn_config
openvpn-refuses content i p = ground (arith, i, p)

ikev2-refuses :
    (content : Bytes)
    → contains (codes "[interface]") (lower content) ≡ true
    → contains (codes "[peer]") (lower content) ≡ true
    → is_ikev2_config content ≡ false
unfolding is_ikev2_config
ikev2-refuses content i p = ground (arith, i, p)

-- What identifyProtocol answers, as a table of the three tests.
abbrev pub table : Bool → Bool → Bool → VpnProtocol
table true b c = wireguard
table false true true = unknown
table false true false = ikev2
table false false true = openvpn
table false false false = unknown

without :
    (b c : Bool)
    → unambiguous (detected c openvpn (detected b ikev2 (detected false wireguard (0, unknown))))
      ≡ table false b c
without true true = refl
without true false = refl
without false true = refl
without false false = refl

-- identifyProtocol gives WireGuard whenever that test succeeds, since the others then refuse; else
-- IKEv2 or OpenVPN if just one of these tests succeeds; and else unknown.
pub identify_protocol-table :
    (content : Bytes)
    → identify_protocol content
      ≡ table (is_wireguard_config content) (is_ikev2_config content) (is_openvpn_config content)
unfolding identify_protocol to_lower
identify_protocol-table content = elim (Bool-cases (is_wireguard_config content)) [
  | inl e ↦
      (let sections = wireguard-sections content e in
        let i = contains-lower (codes "[Interface]") content sections.0 in
        let p = contains-lower (codes "[Peer]") content sections.1 in
        rw (identify_protocol, e, openvpn-refuses content i p, ikev2-refuses content i p) refl)
  | inr e ↦
      rw (identify_protocol, e) (without (is_ikev2_config content) (is_openvpn_config content))
]
