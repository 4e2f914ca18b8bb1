-- ===== src/Wallet/Coins.antt =====
-- src/wallet.rs: `get_inputs_and_change` and `get_script_sig`.
use icebox.Prelude.{ℕ, zero, suc, ◌+◌, Bool, true, false, List, [], ◌∷◌, length}
use icebox.Outcome.{Outcome, ok, panic}
use icebox.Io.{Io, lift, pure, ◌>>=◌, ◌>>◌}
use icebox.Spend.{Spend}
use icebox.Dongle.Trait.{Trait}
use icebox.Wallet.Crates.{Crates}
use icebox.Wallet.Path.{KeyPurpose, bip32_path}
use icebox.Wallet.Cipher.{as_u32}
use icebox.Wallet.Store.{EncryptedWallet, on_dongle, this, assign, lookup}
use icebox.Wallet.Pick.{Found, sum_outputs, base_size, pick, enough, finish}

-- `vec_sig[0] = 0x30`
unfoldable pub tag_sequence : List ℕ → Outcome (List ℕ)
tag_sequence [] = panic
tag_sequence (b ∷ sig) = ok (0x30 ∷ sig)

module _ {H PublicKey Signature Script Address : Type 0}
    (lib : Crates PublicKey Signature Script Address) (dongle : Trait H PublicKey Script) where
  unfoldable pub coins_from : EncryptedWallet → ℕ → ℕ → ℕ → ℕ → Found → Io (Spend Script × H) Found
  coins_from w fee_rate total_amount i zero found = pure found
  coins_from w fee_rate total_amount i (suc n) found = do
    entry ← on_dongle (lookup lib dongle w i)
    spend ← this
    let path = bip32_path w.network w.account KeyPurpose.address (as_u32 i)
    (found, spend) ← lift (pick lib fee_rate total_amount path entry found spend)
    assign spend
    quit ← lift (enough fee_rate total_amount found)
    elim quit [ true ↦ pure found | false ↦ coins_from w fee_rate total_amount (i + 1) n found ]

  unfoldable pub get_inputs_and_change : EncryptedWallet → ℕ → Io (Spend Script × H) (Unit {0})
  get_inputs_and_change w fee_rate = do
    spend ← this
    total_amount ← lift (sum_outputs 0 spend.output)
    let start : Found = record {
      found_amount = 0;
      found_change = false;
      size_bytes = base_size spend;
    }
    found ← coins_from w fee_rate total_amount 0 (length w.entries) start
    spend ← this
    let result = finish fee_rate total_amount found spend
    assign result.1
    lift result.0

  unfoldable pub get_script_sig : EncryptedWallet → Spend Script → ℕ → Bool → Io H Script
  get_script_sig w spend index continuing = do
    dongle.transaction_input_start spend index continuing
    dongle.transaction_input_finalize spend
    let path = bip32_path w.network w.account KeyPurpose.address (as_u32 index)
    key ← dongle.get_public_key path false
    sig ← dongle.transaction_sign path lib.sighash_all 0
    sig ← lift (tag_sequence sig)
    pure (lib.push_slices sig (lib.serialize_key key.public_key))
