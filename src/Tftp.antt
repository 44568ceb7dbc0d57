-- ===== src/Tftp.antt =====
-- src/firmware-update/tftp_client.cpp and tftp_client.h: namespace FirmwareUpdate.
pub mod Packet
pub mod Network
pub mod Client
pub mod Names
pub mod Commands
