-- ===== src/Asio/Http.antt =====
-- The HTTP server and client, include/xsl/asio/http and src/asio/http.
pub mod Response
pub mod Context
pub mod Service
pub mod Conn
pub mod RequestPart
pub mod Static
