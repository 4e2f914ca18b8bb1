-- ===== src/Examples.antt =====
-- The theorems on concrete devices, messages, transactions and replies.
pub mod Device
pub mod Ledger
pub mod LedgerSigns
mod Transport
pub mod Encoding
mod Sending
mod Replies
pub mod WalletParts
pub mod WalletReads
mod Wallets
mod Receiving
mod Discovering
