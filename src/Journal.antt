-- ===== src/Journal.antt =====
-- The packages journalwriter and superlog.
pub mod Fields
pub mod Send
pub mod Writer
mod Tests
