-- ===== src/Sync.antt =====
-- include/xsl/sync/.
pub mod Spsc
