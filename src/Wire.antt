-- ===== src/Wire.antt =====
-- The ADB wire format (src/wire): command words, headers, messages and their codec.
pub mod Command
pub mod Message
pub mod Codec
