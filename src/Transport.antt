-- ===== src/Transport.antt =====
-- The message transports (src/transport).
pub mod Config
pub mod Io
pub mod Framed
pub mod Usb
pub mod Tcp
