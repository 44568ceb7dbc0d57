-- ===== src/NetworkOps/Handlers.antt =====
-- The five handlers as instances of the shared structure.
pub mod Vlan
pub mod Bridge
pub mod Nat
pub mod Firewall
pub mod StaticRoutes
