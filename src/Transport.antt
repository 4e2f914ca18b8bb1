-- ===== src/Transport.antt =====
-- src/dongle/ledger.rs: APDUs cut into HID frames of 64 bytes, and put together again.
pub mod Frame
pub mod Apdu
pub mod Delivery
pub mod Sound
