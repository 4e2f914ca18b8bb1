-- ===== src/Message.antt =====
-- src/dongle/message.rs
pub mod Status
pub mod SingleShot
pub mod FirmwareVersion
pub mod Random
pub mod SignMessageSign
pub mod WalletPublicKey
pub mod HashSign
pub mod CoinVersions
pub mod TrustedInput
pub mod InputStart
pub mod InputFinalize
pub mod SignMessagePrepare
