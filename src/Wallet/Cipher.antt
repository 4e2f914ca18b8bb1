-- ===== src/Wallet/Cipher.antt =====
-- src/wallet.rs: `encrypt` and `decrypt` of one entry.
use icebox.Prelude.{ℕ, ◌%◌, ◌^◌, false, List, length, replicate}
use icebox.Outcome.{index_range}
use icebox.Io.{Io, lift, ◌>>=◌}
use icebox.Constants.{decrypted_entry_size}
use icebox.Signature.{copy_into}
use icebox.Message.CoinVersions.{Network}
use icebox.Dongle.Trait.{Trait}
use icebox.Wallet.Crates.{Crates}
use icebox.Wallet.Path.{KeyPurpose, bip32_path}

-- `index as u32`
abbrev pub as_u32 : ℕ → ℕ
as_u32 index = index % 2 ^ 32

module _ {H PublicKey Signature Script Address : Type 0}
    (lib : Crates PublicKey Signature Script Address) (dongle : Trait H PublicKey Script) where
  -- The new content of `output`. `process` takes input and output of one length.
  unfoldable pub encrypt : Network → ℕ → ℕ → List ℕ → List ℕ → Io H (List ℕ)
  encrypt network account index input output = do
    key ← dongle.get_public_key (bip32_path network account KeyPurpose.aes_key (as_u32 index)) false
    iv ← dongle.get_random 16
    output ← lift (copy_into 0 16 iv output)
    lift (copy_into 16 (length output) (lib.aes_ctr key.chaincode iv input) output)

  unfoldable pub decrypt : Network → ℕ → ℕ → List ℕ → Io H (List ℕ)
  decrypt network account index input = do
    key ← dongle.get_public_key (bip32_path network account KeyPurpose.aes_key (as_u32 index)) false
    iv ← lift (index_range 0 16 input)
    body ← lift (index_range 16 (length input) input)
    let output = lib.aes_ctr key.chaincode iv body
    lift (copy_into 0 decrypted_entry_size output (replicate decrypted_entry_size 0))
