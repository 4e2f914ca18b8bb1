-- ===== src/Wallet.antt =====
-- src/wallet.rs
pub mod Crates
pub mod Path
pub mod Hardened
pub mod Cipher
pub mod Entry
pub mod Layout
pub mod ReadBack
pub mod Sealed
pub mod Store
pub mod Change
pub mod Pick
pub mod Coins
pub mod File
pub mod Honest
pub mod RoundTrip
pub mod Contents
pub mod Grow
pub mod Rerandomize
pub mod SaveLoad
pub mod Conserve
pub mod Lookup
pub mod Recorded
pub mod Put
pub mod Invariant
pub mod Keeping
pub mod MarkSpent
pub mod Updates
pub mod Receive
pub mod ReceiveOne
pub mod ReceiveAll
pub mod Balance
pub mod NextUnused
pub mod Settle
pub mod Spending
