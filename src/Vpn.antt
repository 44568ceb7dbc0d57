-- ===== src/Vpn.antt =====
-- mecanisms/vpn-parser: the parsers of VPN configurations.
pub mod Detect
pub mod Endpoint
pub mod OpenVpn
