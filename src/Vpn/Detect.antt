-- ===== src/Vpn/Detect.antt =====
-- isOpenVPNConfig, isIKEv2Config, isWireGuardConfig, and identifyProtocol of VPNParserManager.
pub mod Exclusive
use ur_webif.Base.{
  ℕ, zero, suc, ◌+◌, Bool, true, false, not, ◌&&◌, ◌||◌, ltb, List, [], ◌∷◌, Bytes, codes, map,
  any_of, find?, is_some, if◌then◌else◌,
}

-- `s.find(needle) != npos`
unfoldable pub contains : Bytes → Bytes → Bool
unfolding find?
contains needle s = is_some (find? needle s)

abbrev pub is_capital : ℕ → Bool
is_capital c = not (ltb c b'A') && not (ltb b'Z' c)

-- `tolower` of the C locale.
unfoldable pub to_lower : ℕ → ℕ
to_lower c = if is_capital c then c + 32 else c

abbrev pub lower : Bytes → Bytes
lower s = map to_lower s

-- How many of the words occur.
unfoldable pub matches : List Bytes → Bytes → ℕ
unfolding contains
matches [] s = 0
matches (w ∷ ws) s = if contains w s then suc (matches ws s) else matches ws s

abbrev openvpn_specific : List Bytes
openvpn_specific =
    codes "dev tun"
    ∷ codes "dev tap"
    ∷ codes "proto udp"
    ∷ codes "proto tcp"
    ∷ codes "cipher "
    ∷ codes "auth "
    ∷ codes "tls-client"
    ∷ codes "tls-server"
    ∷ codes "tls-auth"
    ∷ codes "tls-crypt"
    ∷ codes "ca "
    ∷ codes "cert "
    ∷ codes "key "
    ∷ codes "persist-key"
    ∷ codes "persist-tun"
    ∷ codes "resolv-retry"
    ∷ codes "nobind"
    ∷ codes "verb "
    ∷ codes "explicit-exit-notify"
    ∷ codes "remote-cert-tls"
    ∷ codes "auth-nocache"
    ∷ codes "setenv opt"
    ∷ []

abbrev embedded_blocks : List Bytes
embedded_blocks =
    codes "<ca>" ∷ codes "<cert>" ∷ codes "<key>" ∷ codes "<tls-crypt>" ∷ codes "<tls-auth>" ∷ []

unfoldable pub is_openvpn_config : Bytes → Bool
unfolding contains to_lower matches
is_openvpn_config content =
    let lower_content = lower content in
    let has_remote = contains (codes "remote ") lower_content in
    let has_client = contains (codes "client") lower_content in
    let has_server = contains (codes "server ") lower_content in
    let has_wireguard =
      contains (codes "[interface]") lower_content && contains (codes "[peer]") lower_content in
    let has_ikev2 =
      contains (codes "keyexchange=ikev2") lower_content
      || contains (codes "conn ") lower_content && contains (codes "config setup") lower_content in
    let has_embedded = any_of (λ block. contains block content) embedded_blocks in
    if not has_remote || not has_client && not has_server
    then false
    else if has_wireguard || has_ikev2
    then false
    else not (ltb (matches openvpn_specific lower_content) 3) || has_embedded

abbrev ikev2_keywords : List Bytes
ikev2_keywords =
    codes "keyexchange=ikev2"
    ∷ codes "ike="
    ∷ codes "esp="
    ∷ codes "authby="
    ∷ codes "leftauth="
    ∷ codes "rightauth="
    ∷ codes "leftid="
    ∷ codes "rightid="
    ∷ codes "leftsourceip="
    ∷ codes "rightsubnet="
    ∷ codes "auto=add"
    ∷ codes "auto=start"
    ∷ codes "rekey="
    ∷ codes "reauth="
    ∷ codes "closeaction="
    ∷ codes "fragmentation="
    ∷ codes "forceencaps="
    ∷ codes "charondebug="
    ∷ codes "leftcert="
    ∷ codes "rightcert="
    ∷ codes "type=tunnel"
    ∷ []

unfoldable pub is_ikev2_config : Bytes → Bool
unfolding contains to_lower matches
is_ikev2_config content =
    let lower_content = lower content in
    let has_setup = contains (codes "config setup") lower_content in
    let has_conn = contains (codes "conn ") lower_content in
    let has_exchange = contains (codes "keyexchange=ikev2") lower_content in
    let found = matches ikev2_keywords lower_content in
    let has_openvpn =
      contains (codes "client") lower_content && contains (codes "remote ") lower_content
      || (contains (codes "<ca>") lower_content || contains (codes "dev tun") lower_content) in
    let has_wireguard =
      contains (codes "[interface]") lower_content && contains (codes "[peer]") lower_content
      || contains (codes "privatekey") lower_content in
    if has_openvpn || has_wireguard
    then false
    else has_conn && (has_exchange || (not (ltb found 4) || has_setup && not (ltb found 2)))

abbrev wireguard_keys : List Bytes
wireguard_keys =
    codes "PrivateKey"
    ∷ codes "PublicKey"
    ∷ codes "Endpoint"
    ∷ codes "AllowedIPs"
    ∷ codes "PersistentKeepalive"
    ∷ codes "ListenPort"
    ∷ codes "DNS"
    ∷ codes "Address"
    ∷ codes "MTU"
    ∷ []

unfoldable pub is_wireguard_config : Bytes → Bool
unfolding contains to_lower matches
is_wireguard_config content =
    let lower_content = lower content in
    let has_interface = contains (codes "[Interface]") content in
    let has_peer = contains (codes "[Peer]") content in
    let has_private_key = contains (codes "PrivateKey") content in
    let has_endpoint = contains (codes "Endpoint") content in
    let has_openvpn =
      contains (codes "client") lower_content && contains (codes "remote ") lower_content
      || (contains (codes "<ca>") content || contains (codes "dev tun") lower_content) in
    let has_ikev2 =
      contains (codes "conn ") lower_content && contains (codes "keyexchange=ikev2") lower_content
      || contains (codes "config setup") lower_content in
    if not has_interface || not has_peer
    then false
    else if has_openvpn || has_ikev2
    then false
    else has_interface
      && (has_peer
          && (has_private_key && (has_endpoint && not (ltb (matches wireguard_keys content) 4))))

pub data VpnProtocol : Type 0 where
  unknown : VpnProtocol
  openvpn : VpnProtocol
  ikev2 : VpnProtocol
  wireguard : VpnProtocol

abbrev is_unknown : VpnProtocol → Bool
is_unknown unknown = true
is_unknown openvpn = false
is_unknown ikev2 = false
is_unknown wireguard = false

-- The number of matches and the protocol that was detected first.
abbrev pub detected : Bool → VpnProtocol → ℕ × VpnProtocol → ℕ × VpnProtocol
detected true protocol (count, first) = (suc count, if is_unknown first then protocol else first)
detected false protocol (count, first) = (count, first)

abbrev pub unambiguous : ℕ × VpnProtocol → VpnProtocol
unambiguous (zero, first) = unknown
unambiguous (suc zero, first) = first
unambiguous (suc (suc n), first) = unknown

unfoldable pub identify_protocol : Bytes → VpnProtocol
identify_protocol content = unambiguous (
    detected (is_openvpn_config content) openvpn (
      detected (is_ikev2_config content) ikev2
        (detected (is_wireguard_config content) wireguard (0, unknown))))

abbrev pub protocol_to_string : VpnProtocol → Bytes
protocol_to_string openvpn = codes "OpenVPN"
protocol_to_string ikev2 = codes "IKEv2"
protocol_to_string wireguard = codes "WireGuard"
protocol_to_string unknown = codes "Unknown"

-- The members success, protocol and confidence of the answer.
unfoldable pub detect_protocol : Bytes → Bool × Bytes × Bytes
detect_protocol content =
    let protocol = identify_protocol content in
    (
      not (is_unknown protocol),
      protocol_to_string protocol,
      if is_unknown protocol then codes "none" else codes "high",
    )
