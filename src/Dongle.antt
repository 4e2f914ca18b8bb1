-- ===== src/Dongle.antt =====
-- src/dongle/mod.rs: the functions of `trait Dongle`, over the `exchange` of the hardware dongle.
pub mod Replies
pub mod Ends
pub mod Trait
pub mod Discovery
use icebox.Prelude.{
  ℕ, zero, suc, ◌==◌, not, Bool, true, false, List, [], ◌∷◌, length, if◌then◌else◌,
}
use icebox.Error.{apdu_bad_status, response_wrong_length}
use icebox.Outcome.{Outcome, ok, err, panic, fail_if}
use icebox.Io.{Io, Hid, pure, lift, ◌>>=◌, ◌>>◌}
use icebox.Constants.{max_apdu_size, ins_get_trusted_input, sw_ok}
use icebox.Bitcoin.{Transaction, Consensus}
use icebox.Spend.{Spend}
use icebox.Signature.{Secp, convert_ledger_der_to_compact}
use icebox.Command.{Command, exchange}
use icebox.Message.FirmwareVersion
use icebox.Message.FirmwareVersion.{FirmwareVersion}
use icebox.Message.WalletPublicKey
use icebox.Message.WalletPublicKey.{KeyCodec, WalletPublicKey}
use icebox.Message.SignMessagePrepare
use icebox.Message.SignMessageSign
use icebox.Message.Random
use icebox.Message.TrustedInput
use icebox.Message.InputStart
use icebox.Message.InputFinalize
use icebox.Message.HashSign
use icebox.Message.CoinVersions
use icebox.Message.CoinVersions.{Network}

-- `if sw == OK { ... } else { Err(ApduBadStatus(sw)) }`
unfoldable pub when_ok : {A : Type 0} → ℕ → Outcome A → Outcome A
when_ok sw result = if sw == sw_ok then result else err (apdu_bad_status sw)

-- `rev != &[0, 0]` is the panic.
unfoldable pub user_agreed : List ℕ → Outcome (Unit {0})
user_agreed (zero ∷ zero ∷ []) = ok tt
user_agreed _ = panic

-- `fuel` bounds the rounds of an `exchange`.
module _ {H : Type 0} (hid : Hid H) (fuel : ℕ) where
  unfoldable pub get_firmware_version : Io H FirmwareVersion
  get_firmware_version = do
    (sw, rev) ← exchange hid FirmwareVersion.command fuel FirmwareVersion.new
    lift (when_ok sw (FirmwareVersion.decode rev))

  module _ {PublicKey : Type 0} (codec : KeyCodec PublicKey) where
    unfoldable pub get_public_key : List ℕ → Bool → Io H (WalletPublicKey PublicKey)
    get_public_key bip32_path display = do
      cmd ← lift (WalletPublicKey.new bip32_path display)
      (sw, rev) ← exchange hid WalletPublicKey.command fuel cmd
      lift (when_ok sw (WalletPublicKey.decode codec rev))

  unfoldable pub sign_message :
      {Signature : Type 0} → Secp Signature → List ℕ → List ℕ → Io H (List ℕ)
  sign_message lib message bip32_path = do
    cmd ← lift (SignMessagePrepare.new bip32_path message)
    (sw, rev) ← exchange hid SignMessagePrepare.command fuel cmd
    lift (fail_if (not (sw == sw_ok)) (apdu_bad_status sw))
    lift (user_agreed rev)
    (sw, rev) ← exchange hid SignMessageSign.command fuel SignMessageSign.new
    lift (when_ok sw (convert_ledger_der_to_compact lib rev))

  unfoldable pub get_random : ℕ → Io H (List ℕ)
  get_random n = do
    (sw, rev) ← exchange hid Random.command fuel (Random.new n)
    lift (when_ok sw (ok rev))

  module _ {Script : Type 0} (consensus : Consensus Script) where
    -- The length is tested before the status word.
    unfoldable pub get_trusted_input : Transaction Script → ℕ → Io H (List ℕ)
    get_trusted_input tx vout = do
      cmd ← lift (TrustedInput.new consensus tx vout max_apdu_size)
      (sw, rev) ← exchange hid TrustedInput.command fuel cmd
      lift (
          fail_if (not (length rev == 56))
            (response_wrong_length ins_get_trusted_input (length rev)))
      lift (when_ok sw (ok rev))

    unfoldable pub transaction_input_start : Spend Script → ℕ → Bool → Io H (Unit {0})
    transaction_input_start spend index continuing = do
      cmd ← lift (InputStart.new consensus spend index continuing max_apdu_size)
      (sw, _) ← exchange hid InputStart.command fuel cmd
      lift (when_ok sw (ok tt))

    unfoldable pub transaction_input_finalize : Spend Script → Io H (Unit {0})
    transaction_input_finalize spend = do
      cmd ← lift (InputFinalize.new consensus spend max_apdu_size)
      (sw, _) ← exchange hid InputFinalize.command fuel cmd
      lift (when_ok sw (ok tt))

  unfoldable pub transaction_sign : List ℕ → ℕ → ℕ → Io H (List ℕ)
  transaction_sign bip32_path sighash locktime = do
    cmd ← lift (HashSign.new bip32_path sighash locktime)
    (sw, rev) ← exchange hid HashSign.command fuel cmd
    lift (when_ok sw (ok rev))

  unfoldable pub set_network : Network → Io H (Unit {0})
  set_network network = do
    (sw, _) ← exchange hid CoinVersions.command fuel (CoinVersions.new network)
    lift (when_ok sw (ok tt))
