-- ===== src/Dongle/Trait.antt =====
-- src/dongle/mod.rs: `trait Dongle` as the wallet sees it, and the hardware dongle as one.
use icebox.Prelude.{ℕ, Bool, List}
use icebox.Io.{Io, Hid}
use icebox.Bitcoin.{Transaction, Consensus}
use icebox.Spend.{Spend}
use icebox.Signature.{Secp}
use icebox.Message.WalletPublicKey.{KeyCodec, WalletPublicKey}
use icebox.Message.CoinVersions.{Network}
use icebox.Dongle

pub record Trait (H PublicKey Script : Type 0) : Type 0 where
  pub set_network : Network → Io H (Unit {0})
  pub get_public_key : List ℕ → Bool → Io H (WalletPublicKey PublicKey)
  pub sign_message : List ℕ → List ℕ → Io H (List ℕ)
  pub get_random : ℕ → Io H (List ℕ)
  pub get_trusted_input : Transaction Script → ℕ → Io H (List ℕ)
  pub transaction_input_start : Spend Script → ℕ → Bool → Io H (Unit {0})
  pub transaction_input_finalize : Spend Script → Io H (Unit {0})
  pub transaction_sign : List ℕ → ℕ → ℕ → Io H (List ℕ)

abbrev pub hardware :
    {H PublicKey Script Signature : Type 0}
    → Hid H
    → ℕ
    → KeyCodec PublicKey
    → Secp Signature
    → Consensus Script
    → Trait H PublicKey Script
hardware hid fuel codec lib consensus = record {
  set_network = Dongle.set_network hid fuel;
  get_public_key = Dongle.get_public_key hid fuel codec;
  sign_message = Dongle.sign_message hid fuel lib;
  get_random = Dongle.get_random hid fuel;
  get_trusted_input = Dongle.get_trusted_input hid fuel consensus;
  transaction_input_start = Dongle.transaction_input_start hid fuel consensus;
  transaction_input_finalize = Dongle.transaction_input_finalize hid fuel consensus;
  transaction_sign = Dongle.transaction_sign hid fuel;
}
