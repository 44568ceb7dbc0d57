-- ===== src/Multipart.antt =====
-- src/multipart_parser.cpp: MultipartParser, the bodies of uploads.
pub mod Headers
pub mod Parser
pub mod Newlines
pub mod Rounds
pub mod RoundTrip
