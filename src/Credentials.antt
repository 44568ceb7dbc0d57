-- ===== src/Credentials.antt =====
-- src/credential_manager.cpp and src/password_manager.cpp.
pub mod Cipher
pub mod State
pub mod Attempts
pub mod Manager
pub mod Lockout
pub mod Disk
pub mod Password
