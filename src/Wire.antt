-- ===== src/Wire.antt =====
-- The frames on the wire: how each side lays out what it sends, and how the other side reads it.
pub mod Word
pub mod Reads
pub mod Request
pub mod Response
pub mod Push
