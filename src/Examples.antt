-- ===== src/Examples.antt =====
-- Concrete inputs of the theorems, and small runs of the models.
pub mod Login
pub mod Tftp
pub mod Sysupgrade
pub mod Security
pub mod Files
pub mod Json
pub mod Objects
pub mod Credentials
pub mod WebSocket
pub mod NetworkOps
pub mod Multipart
pub mod Vpn
pub mod Router
pub mod Config
