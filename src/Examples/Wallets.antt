-- ===== src/Examples/Wallets.antt =====
-- src/wallet.rs: the theorems on the methods that change the wallet of two entries, and on paths.
use icebox.Prelude.{ℕ, ◌-◌, ◌≡◌, refl, true, List, [], ◌∷◌, ◌++◌, length, replicate, All, arith}
use icebox.Outcome.{ok}
use icebox.Message.CoinVersions.{Network}
use icebox.Bitcoin.{Transaction}
use icebox.Wallet.Entry.{Entry}
use icebox.Wallet.Path.{KeyPurpose, coin_type, bip32_path}
use icebox.Wallet.Hardened.{IsHardened, bip32_path-IsHardened, bip32_path_injective}
use icebox.Wallet.MarkSpent.{Replaced, mark_spent_lem}
use icebox.Wallet.Updates.{labelled}
use icebox.Wallet.Sealed.{sign_and_encrypt, decrypt_and_verify}
use icebox.Wallet.Store.{EncryptedWallet, new, extend}
use icebox.Wallet.Change.{Update, update, receive, mark_spent, rerandomize}
use icebox.Wallet.RoundTrip.{Readable, reread, decrypt_and_verify-sign_and_encrypt}
use icebox.Wallet.Contents.{Holds, Leaves}
use icebox.Wallet.Grow.{blank, new_lem, extend_lem}
use icebox.Wallet.Rerandomize.{IsFresh, rerandomize_lem}
use icebox.Wallet.Invariant.{Kept}
use icebox.Wallet.Keeping.{methods-Kept}
use icebox.Examples.WalletParts.{
  lib, dongle, idle, keyed, signing, entry, entry-Readable, contents, small_wallet,
  small_wallet-Holds,
}
use icebox.Examples.WalletReads.{contents-Reads}

round_trip_example :
    (block : List ℕ) × ((sign_and_encrypt lib dongle Network.testnet 0 0 entry idle).0 ≡ ok block)
    × (length block ≡ 352)
    × ((decrypt_and_verify lib dongle Network.testnet 0 0 block idle).0
        ≡ ok (reread lib dongle keyed Network.testnet 0 0 signing entry))
round_trip_example =
    decrypt_and_verify-sign_and_encrypt lib dongle keyed Network.testnet 0 0 signing entry idle idle
      entry-Readable

new_example :
    (w : EncryptedWallet) × ((new lib dongle Network.testnet 0 2 idle).0 ≡ ok w)
    × Holds lib dongle keyed Network.testnet 0 w (replicate 2 blank)
new_example = new_lem lib dongle keyed Network.testnet 0 2 idle

extend_example :
    Leaves lib dongle keyed Network.testnet 0
      (extend lib dongle 5 (small_wallet, idle))
      tt
      (contents ++ replicate (5 - length contents) blank)
extend_example =
    extend_lem lib dongle keyed Network.testnet 0 small_wallet contents 5 idle small_wallet-Holds

rerandomize_example :
    Leaves lib dongle keyed Network.testnet 0
      (rerandomize lib dongle (small_wallet, idle))
      tt
      contents
    × All
        (IsFresh lib dongle keyed Network.testnet 0)
        (rerandomize lib dongle (small_wallet, idle)).1.0.entries
rerandomize_example =
    rerandomize_lem lib dongle keyed Network.testnet 0 small_wallet contents idle small_wallet-Holds

-- The first entry as it is read, marked as spent.
abbrev spent_entry : Entry (List ℕ)
spent_entry = record (reread lib dongle keyed Network.testnet 0 0 signing entry) { spent = true }

spent_entry-Readable : Readable lib dongle keyed Network.testnet 0 0 signing spent_entry
spent_entry-Readable = record {
  fits = record {
    trusted_input = refl;
    txid = refl;
    vout = omega arith;
    amount = omega arith;
    date = refl;
    blockhash = refl;
    user = omega arith;
    note = omega arith;
  };
  dated = refl;
  user = refl;
  note = refl;
}

mark_spent_example :
    Replaced lib dongle keyed Network.testnet 0 0 signing
      (mark_spent lib dongle 0 (small_wallet, idle))
      tt
      contents
      spent_entry
mark_spent_example =
    mark_spent_lem lib dongle keyed Network.testnet 0 0 signing small_wallet contents
      (reread lib dongle keyed Network.testnet 0 0 signing entry) idle small_wallet-Holds
      (omega arith) contents-Reads.0 spent_entry-Readable

abbrev time : List ℕ
time = replicate 24 0x30

abbrev label : Entry (List ℕ)
label =
    labelled lib dongle keyed Network.testnet 0 1 signing time (0x61 ∷ []) (replicate 32 4)
      (0x62 ∷ 0x63 ∷ [])

bip32_path-IsHardened_example :
    (length (bip32_path Network.testnet 3 KeyPurpose.aes_key 200) ≡ 5)
    × All IsHardened (bip32_path Network.testnet 3 KeyPurpose.aes_key 200)
bip32_path-IsHardened_example =
    bip32_path-IsHardened Network.testnet 3 KeyPurpose.aes_key 200 (omega arith) (omega arith)

same_path :
    bip32_path Network.testnet 3 KeyPurpose.aes_key 200
    ≡ bip32_path Network.regtest 3 KeyPurpose.aes_key 200
unfolding bip32_path
same_path = refl

abbrev third_account : ℕ
third_account = 3

abbrev place : ℕ
place = 200

bip32_path_injective_example :
    (coin_type Network.testnet ≡ coin_type Network.regtest)
    × (third_account ≡ third_account)
    × (KeyPurpose.aes_key ≡ KeyPurpose.aes_key)
    × (place ≡ place)
bip32_path_injective_example =
    bip32_path_injective Network.testnet Network.regtest third_account third_account
      KeyPurpose.aes_key KeyPurpose.aes_key place place (omega arith) (omega arith) (omega arith)
      (omega arith) same_path

abbrev payment : Transaction (List ℕ)
payment = record {
  version = 2;
  lock_time = 0;
  input = [];
  output = record { value = 700; script_pubkey = 0x52 ∷ [] } ∷ [];
}

methods-Kept_example :
    Kept small_wallet
      (update lib dongle time 1 []
        (replicate 32 4)
        (Update.change payment 0)
        (small_wallet, idle)).1.0
    × Kept small_wallet (receive lib dongle payment (small_wallet, idle)).1.0
    × Kept small_wallet (mark_spent lib dongle 1 (small_wallet, idle)).1.0
    × Kept small_wallet (rerandomize lib dongle (small_wallet, idle)).1.0
methods-Kept_example =
    methods-Kept lib dongle small_wallet idle time 1 [] (replicate 32 4) (Update.change payment 0)
      payment (refl, (refl, tt))
