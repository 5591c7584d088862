-- ===== src/Dns.antt =====
-- The DNS library, include/xsl/net/dns and src/net/dns.
pub mod Proto
pub mod Wire
pub mod Header
pub mod Name
