-- ===== src/Files.antt =====
-- src/file_server.cpp: the file server: its paths, its cache and its page transactions.
pub mod State
pub mod Path
pub mod Cache
pub mod Transactions
pub mod Serve
