-- ===== src/Wheel.antt =====
-- include/xsl/wheel.
pub mod Rc
