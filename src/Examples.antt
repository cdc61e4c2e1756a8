-- ===== src/Examples.antt =====
-- The theorems at concrete inputs, and runs of the code on inputs that the repository's tests use.
mod Wire
mod Transport
mod Session
mod Registry
mod Services
mod Usb
mod Auth
mod Host
mod Discovery
mod Tcp
mod Device
mod Keyfile
