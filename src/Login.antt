-- ===== src/Login.antt =====
-- mecanisms/login/login_manager.cpp and login_manager.hpp: class LoginManager.
pub mod State
pub mod Attempts
pub mod Sessions
pub mod Auth
pub mod Tokens
pub mod Handler
