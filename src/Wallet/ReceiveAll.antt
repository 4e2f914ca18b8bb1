-- ===== src/Wallet/ReceiveAll.antt =====
-- src/wallet.rs: `receive` against the content of the wallet.
use icebox.Prelude.{ℕ, ◌≤◌, ◌≡◌, true, List, [], length, get_or, All, ◌⊎◌}
use icebox.Outcome.{Outcome, ok, index}
use icebox.Message.CoinVersions.{Network}
use icebox.Bitcoin.{Transaction, TxOut}
use icebox.Dongle.Trait.{Trait}
use icebox.Wallet.Crates.{Crates}
use icebox.Wallet.Entry.{Entry, EntryState}
use icebox.Wallet.Store.{EncryptedWallet}
use icebox.Wallet.Honest.{Keyed, Signing}
use icebox.Wallet.RoundTrip.{reread}
use icebox.Wallet.Contents.{IsBlock, open_all, wallet}
use icebox.Wallet.Lookup.{entry_at}
use icebox.Wallet.ReceiveOne.{Payment, received_entry}

module _ {H PublicKey Signature Script Address : Type 0}
    (lib : Crates PublicKey Signature Script Address) (dongle : Trait H PublicKey Script)
    (keyed : Keyed lib dongle) (network : Network) (account : ℕ)
    (signing : Signing lib dongle keyed) (tx : Transaction Script) (payment : Payment lib dongle tx)
    (contents : List (List ℕ)) (entry : ℕ → Entry Address) where
  -- The bytes at place `k` are those of before, or the entry there was valid, and they are read as
  -- that entry received from an output of the transaction that pays to its address.
  abbrev pub IsReceipt : ℕ → List ℕ → Type 0
  IsReceipt k bytes =
      (bytes ≡ get_or contents k [])
      ⊎ (((entry k).state ≡ EntryState.valid)
          × ((vout : ℕ) × (out : TxOut Script) × (trusted_input : List ℕ) × (index tx.output vout
                ≡ ok out)
              × (lib.script_eq out.script_pubkey (lib.script_pubkey (entry k).address) ≡ true)
              × (entry_at lib dongle keyed network account k bytes
                  ≡ ok (
                      reread lib dongle keyed network account k signing
                        (received_entry (lib.txid tx) (entry k) trusted_input vout out)))))

  -- The loop stands before place `i`.
  record Before (i : ℕ) (blocks : List (List ℕ)) : Type 0 where
    pub whole : All IsBlock blocks
    pub count : length blocks ≡ length contents
    pub each :
        (k : ℕ) → IsReceipt k (get_or (open_all lib dongle keyed network account 0 blocks) k [])
    pub later :
        (k : ℕ)
        → i ≤ k
        → get_or (open_all lib dongle keyed network account 0 blocks) k [] ≡ get_or contents k []

  -- What the whole loop leaves.
  abbrev Done : EncryptedWallet → Type 0
  Done w =
      (blocks : List (List ℕ)) × (w ≡ wallet lib dongle keyed network account blocks)
      × All IsBlock blocks
      × (length blocks ≡ length contents)
      × ((k : ℕ) → IsReceipt k (get_or (open_all lib dongle keyed network account 0 blocks) k []))
