-- ===== src/Examples/Vpn.antt =====
-- Lines and endpoints of VPN configurations.
use ur_webif.Base.{find?, starts_with, codes, ◌≡◌, refl, arith, pos}
use ur_webif.Vpn.Detect.{is_openvpn_config, is_ikev2_config, is_wireguard_config, identify_protocol}
use ur_webif.Vpn.Detect.Exclusive.{table, identify_protocol-table}
use ur_webif.Vpn.Endpoint.{behind_last, digits, stoi, extract_server, extract_port}
use ur_webif.Vpn.Endpoint.Printed.{address, extract-written}
use ur_webif.Vpn.OpenVpn.{extract_remote_server, extract_remote_port, next_word, take_word}

identify_protocol-table_example :
    identify_protocol (codes "[Interface]\nPrivateKey=a")
    ≡ table
        (is_wireguard_config (codes "[Interface]\nPrivateKey=a"))
        (is_ikev2_config (codes "[Interface]\nPrivateKey=a"))
        (is_openvpn_config (codes "[Interface]\nPrivateKey=a"))
identify_protocol-table_example = identify_protocol-table (codes "[Interface]\nPrivateKey=a")

extract-written_example :
    (extract_server (codes "[fe80::1]:51821") ≡ codes "fe80::1")
    × (extract_port (codes "[fe80::1]:51821") ≡ pos 51821)
unfolding digits
extract-written_example =
    extract-written (address (codes "fe80::1")) b'5' (codes "1821") refl refl (omega arith)

-- The words behind remote.
remote_words :
    (extract_remote_server (codes " vpn.example.com 443 udp") ≡ codes "vpn.example.com")
    × (extract_remote_port (codes " vpn.example.com 443 udp") ≡ pos 443)
unfolding extract_remote_server extract_remote_port next_word take_word stoi digits
remote_words = (refl, refl)

-- Without a port the text behind the last colon of the address is taken for one.
address_without_port : extract_port (codes "[fe80::1]") ≡ pos 1
unfolding extract_port find? starts_with stoi digits behind_last
address_without_port = refl
