-- ===== src/Wallet/SaveLoad.antt =====
-- src/wallet.rs: what `save` writes against what `load` reads.
use icebox.Prelude.{
  ℕ, ◌+◌, ◌*◌, ◌/◌, ◌%◌, ◌^◌, ◌<◌, ◌≡◌, refl, true, leb, ◌==◌, List, [], ◌∷◌, ◌++◌, length,
  length-append, take-append_exact, drop-append_exact, All, arith,
}
use icebox.Outcome.{ok}
use icebox.Bytes.{be_u32, be_u64, read_u32, read_u64}
use icebox.Message.CoinVersions.{Network}
use icebox.Wallet.Store.{EncryptedWallet}
use icebox.Wallet.File.{magic_of, write_entries, save, network_of, read_entries, load_bytes}
use icebox.Wallet.Contents.{IsBlock}

length-write_entries :
    (es : List (List ℕ)) → All IsBlock es → length (write_entries es) ≡ 352 * length es
length-write_entries [] whole = refl
length-write_entries (e ∷ es) whole =
    omega (arith, whole.0, length-append e (write_entries es), length-write_entries es whole.1)

read-write_entries :
    (es : List (List ℕ)) → All IsBlock es → read_entries (length es) (write_entries es) ≡ ok es
unfolding read_entries
read-write_entries [] whole = refl
read-write_entries (e ∷ es) whole =
    let rest : List ℕ = write_entries es in
    let fits : leb 352 (length (e ++ rest)) ≡ true =
      let size : length (e ++ rest) ≡ 352 + length rest =
        omega (arith, whole.0, length-append e rest) in
      ground arith in
    rw (
      fits,
      drop-append_exact 352 e rest whole.0,
      take-append_exact 352 e rest whole.0,
      read-write_entries es whole.1,
    )

-- The network that a saved wallet is loaded with.
abbrev pub loaded_network : Network → Network
loaded_network Network.bitcoin = Network.bitcoin
loaded_network Network.testnet = Network.testnet
loaded_network Network.regtest = Network.bitcoin

network_of-magic_of :
    (network : Network) → network_of (magic_of network) ≡ ok (loaded_network network)
unfolding network_of
network_of-magic_of Network.bitcoin = refl
network_of-magic_of Network.testnet = refl
network_of-magic_of Network.regtest = refl

read-magic_of :
    (network : Network) (rest : List ℕ)
    → read_u64 0 (be_u64 (magic_of network) ++ rest) ≡ magic_of network
read-magic_of Network.bitcoin rest = refl
read-magic_of Network.testnet rest = refl
read-magic_of Network.regtest rest = refl

-- A wallet with an account of 32 bits and whole blocks that is saved and loaded is the same wallet,
-- but that a wallet of the regression test network is loaded as one of the main network.
pub load_bytes-save :
    (w : EncryptedWallet)
    → w.account < 2 ^ 32
    → All IsBlock w.entries
    → load_bytes (save w) ≡ ok (record w { network = loaded_network w.network })
unfolding load_bytes save
load_bytes-save w small whole =
    let m : ℕ = magic_of w.network in
    let body : List ℕ = write_entries w.entries in
    let tail : List ℕ = be_u32 w.account ++ body in
    let file : List ℕ = be_u64 m ++ tail in
    let size : length file ≡ 12 + 352 * length w.entries =
      omega (arith, length-write_entries w.entries whole) in
    let right : (length file % 352 == 12) ≡ true = ground arith in
    let count : length file / 352 ≡ length w.entries = omega arith in
    let account : read_u32 8 file ≡ w.account = omega arith in
    rw (
      right,
      read-magic_of w.network tail,
      network_of-magic_of w.network,
      count,
      read-write_entries w.entries whole,
      account,
    )
