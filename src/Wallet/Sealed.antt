-- ===== src/Wallet/Sealed.antt =====
-- src/wallet.rs: an entry in its encrypted block, and `Entry::sign_message`.
use icebox.Prelude.{ℕ, false, List, replicate}
use icebox.Outcome.{index_range}
use icebox.Io.{Io, lift, ◌>>=◌}
use icebox.Constants.{encrypted_entry_size}
use icebox.Signature.{copy_into}
use icebox.Message.CoinVersions.{Network}
use icebox.Dongle.Trait.{Trait}
use icebox.Wallet.Crates.{Crates}
use icebox.Wallet.Path.{KeyPurpose, bip32_path}
use icebox.Wallet.Cipher.{as_u32, encrypt, decrypt}
use icebox.Wallet.Entry.{Entry, encode_entry, interpret}

module _ {H PublicKey Signature Script Address : Type 0}
    (lib : Crates PublicKey Signature Script Address) (dongle : Trait H PublicKey Script) where
  unfoldable pub sign_and_encrypt : Network → ℕ → ℕ → Entry Address → Io H (List ℕ)
  sign_and_encrypt network account index entry = do
    input ← lift (encode_entry entry)
    to_sign ← lift (index_range 64 336 input)
    sig ← dongle.sign_message to_sign (bip32_path network account KeyPurpose.address (as_u32 index))
    input ← lift (copy_into 0 64 sig input)
    encrypt lib dongle network account index input (replicate encrypted_entry_size 0)

  unfoldable pub decrypt_and_verify : Network → ℕ → ℕ → List ℕ → Io H (Entry Address)
  decrypt_and_verify network account index input = do
    block ← decrypt lib dongle network account index input
    let path = bip32_path network account KeyPurpose.address (as_u32 index)
    key ← dongle.get_public_key path false
    lift (interpret lib path index key block)

  -- `Entry::sign_message`. A message is its UTF-8 bytes.
  abbrev pub sign_message : Entry Address → List ℕ → Io H (List ℕ)
  sign_message entry msg = dongle.sign_message msg entry.bip32_path
