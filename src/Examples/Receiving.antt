-- ===== src/Examples/Receiving.antt =====
-- src/wallet.rs: `receive` on a wallet of two entries, one that has received coins, and one that is
-- labelled and then paid.
use icebox.Prelude.{ℕ, zero, suc, List, [], ◌∷◌, replicate}
use icebox.Message.CoinVersions.{Network}
use icebox.Bitcoin.{Transaction}
use icebox.Wallet.Entry.{Entry}
use icebox.Wallet.Store.{EncryptedWallet}
use icebox.Wallet.Honest.{sealed_block}
use icebox.Wallet.RoundTrip.{signed_bytes, reread}
use icebox.Wallet.Contents.{wallet}
use icebox.Wallet.Updates.{labelled}
use icebox.Examples.WalletParts.{lib, dongle, idle, keyed, signing, entry}

abbrev label : Entry (List ℕ)
label =
    labelled lib dongle keyed Network.testnet 0 1 signing (replicate 24 0x30) (0x61 ∷ [])
      (replicate 32 4) (0x62 ∷ 0x63 ∷ [])

abbrev label_read : Entry (List ℕ)
label_read = reread lib dongle keyed Network.testnet 0 1 signing label

abbrev before : List (List ℕ)
before =
    signed_bytes lib dongle keyed Network.testnet 0 0 signing entry idle
    ∷ signed_bytes lib dongle keyed Network.testnet 0 1 signing label idle
    ∷ []

abbrev labelled_wallet : EncryptedWallet
labelled_wallet = wallet lib dongle keyed Network.testnet 0 (
    sealed_block lib dongle keyed Network.testnet 0 0
      (signed_bytes lib dongle keyed Network.testnet 0 0 signing entry idle) idle
    ∷ sealed_block lib dongle keyed Network.testnet 0 1
        (signed_bytes lib dongle keyed Network.testnet 0 1 signing label idle) idle
    ∷ [])

abbrev entries : ℕ → Entry (List ℕ)
entries zero = reread lib dongle keyed Network.testnet 0 0 signing entry
entries (suc k) = label_read

-- A transaction that pays to the label's address.
abbrev payment : Transaction (List ℕ)
payment = record {
  version = 2;
  lock_time = 0;
  input = [];
  output = record { value = 700; script_pubkey = label.address } ∷ [];
}
