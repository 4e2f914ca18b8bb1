-- ===== src/Wallet/File.antt =====
-- src/wallet.rs: the bytes of the file that `save` writes and `load` reads. The calls of the file
-- system themselves are not modelled.
use icebox.Prelude.{
  ℕ, zero, suc, ◌/◌, ◌%◌, leb, ◌==◌, not, List, [], ◌∷◌, ◌++◌, length, take, drop, if◌then◌else◌,
}
use icebox.Error.{wallet_wrong_size, wallet_wrong_magic, io}
use icebox.Outcome.{Outcome, ok, err, fail_if, ◌>>=◌, ◌>>◌}
use icebox.Io.{Io, pure, continue}
use icebox.Bytes.{be_u32, be_u64, read_u32, read_u64}
use icebox.Constants.{magic, magic_testnet, encrypted_entry_size}
use icebox.Message.CoinVersions.{Network}
use icebox.Dongle.Trait.{Trait}
use icebox.Wallet.Store.{EncryptedWallet}

abbrev pub magic_of : Network → ℕ
magic_of Network.testnet = magic_testnet
magic_of Network.bitcoin = magic
magic_of Network.regtest = magic

abbrev pub write_entries : List (List ℕ) → List ℕ
write_entries [] = []
write_entries (data_ ∷ entries) = data_ ++ write_entries entries

unfoldable pub save : EncryptedWallet → List ℕ
save w = be_u64 (magic_of w.network) ++ (be_u32 w.account ++ write_entries w.entries)

-- `match magic`
unfoldable pub network_of : ℕ → Outcome Network
network_of n =
    if n == magic
    then ok Network.bitcoin
    else if n == magic_testnet
    then ok Network.testnet
    else err (wallet_wrong_magic n)

-- The error `UnexpectedEof` of `read_exact`, as a number.
abbrev pub unexpected_eof_code : ℕ
unexpected_eof_code = 0

-- `n` times `read_exact` of an entry.
unfoldable pub read_entries : ℕ → List ℕ → Outcome (List (List ℕ))
read_entries zero bytes = ok []
read_entries (suc n) bytes = do
  fail_if (not (leb encrypted_entry_size (length bytes))) (io unexpected_eof_code)
  rest ← read_entries n (drop encrypted_entry_size bytes)
  ok (take encrypted_entry_size bytes ∷ rest)

unfoldable pub load_bytes : List ℕ → Outcome EncryptedWallet
load_bytes file = do
  fail_if (not (length file % encrypted_entry_size == 12)) (wallet_wrong_size (length file))
  network ← network_of (read_u64 0 file)
  entries ← read_entries (length file / encrypted_entry_size) (drop 12 file)
  ok (record { network = network; account = read_u32 8 file; entries = entries })

unfoldable pub load :
    {H PublicKey Script : Type 0} → Trait H PublicKey Script → List ℕ → Io H EncryptedWallet
load dongle file = continue (load_bytes file) (λ w h.
    continue (dongle.set_network w.network h).0 (λ _. pure w) (dongle.set_network w.network h).1)
