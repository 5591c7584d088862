-- ===== src/Net.antt =====
-- src/net/uri.cpp.
pub mod Uri
