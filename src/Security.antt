-- ===== src/Security.antt =====
-- mecanisms/login/security_utils.cpp and security_utils.hpp: class SecurityUtils.
pub mod Address
pub mod RateLimit
pub mod Input
pub mod Password
