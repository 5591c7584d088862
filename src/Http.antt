-- ===== src/Http.antt =====
-- The HTTP library, include/xsl/net/http and src/net/http.
pub mod Tables
pub mod Proto
pub mod Media
pub mod Line
pub mod Message
pub mod Router
pub mod Reader
pub mod Request
pub mod Accept
