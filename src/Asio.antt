-- ===== src/Asio.antt =====
-- The asynchronous input and output, include/xsl/asio and src/asio.
pub mod Io
pub mod Http
pub mod Buf
