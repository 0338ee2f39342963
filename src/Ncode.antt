-- ===== src/Ncode.antt =====
-- The package ncode, a file in each child.
pub mod Twist
pub mod Encoding
pub mod Json
pub mod Parse
pub mod Reader
