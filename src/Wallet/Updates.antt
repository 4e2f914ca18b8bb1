-- ===== src/Wallet/Updates.antt =====
-- src/wallet.rs: `update` against the content of the wallet.
use icebox.Prelude.{ℕ, false, List, replicate}
use icebox.Message.CoinVersions.{Network}
use icebox.Dongle.Trait.{Trait}
use icebox.Wallet.Crates.{Crates}
use icebox.Wallet.Entry.{Entry, EntryState}
use icebox.Wallet.Honest.{Keyed, Signing}
use icebox.Wallet.RoundTrip.{address_path}

module _ {H PublicKey Signature Script Address : Type 0}
    (lib : Crates PublicKey Signature Script Address) (dongle : Trait H PublicKey Script)
    (keyed : Keyed lib dongle) (network : Network) (account i : ℕ)
    (signing : Signing lib dongle keyed) (timestr user blockhash : List ℕ) where
  -- The entry that labels an address.
  abbrev pub labelled : List ℕ → Entry Address
  labelled note = record {
    state = EntryState.valid;
    bip32_path = address_path lib dongle keyed network account i;
    spent = false;
    trusted_input = replicate 56 0;
    address = signing.address (address_path lib dongle keyed network account i);
    index = i;
    txid = replicate 32 0;
    vout = 0;
    amount = 0;
    date = timestr;
    blockhash = blockhash;
    user = user;
    note = note;
  }
