-- ===== src/Message/InputStart.antt =====
-- src/dongle/message.rs: `UntrustedHashTransactionInputStart`.
pub mod Laws
pub mod Whole
use icebox.Prelude.{
  ℕ, ◌+◌, ◌-◌, ◌*◌, ◌%◌, ◌≤◌, ◌<◌, ◌≡◌, refl, Bool, true, false, not, Option, none, some, List, [],
  ◌∷◌, ◌++◌, arith, length, ltb, leb, ◌==◌, if◌then◌else◌, set,
}
use icebox.Error.{Error, unsupported}
use icebox.Outcome.{Outcome, ok, err, panic, diverge, checked_sub, ◌>>=◌}
use icebox.Constants.{
  btchip_cla, ins_get_trusted_input, ins_untrusted_hash_transaction_input_start,
  ins_untrusted_hash_transaction_input_finalize,
}
use icebox.Bytes.{be_u32, be_path, status_word}
use icebox.Bitcoin.{Transaction, Consensus}
use icebox.Spend.{Spend}
use icebox.Cutpoints.{
  encode_transaction_with_cutpoints, encode_spend_inputs_with_cutpoints,
  encode_spend_outputs_with_cutpoints,
}
use icebox.Packets.{all_sent, fill_packet, seal}
use icebox.Command.{Command}
use icebox.Message.Status.{take_status, and_store}

pub record UntrustedHashTransactionInputStart : Type 0 where
  pub continuing : Bool
  pub ser_inputs : List ℕ
  pub cuts : List ℕ
  pub sent_cuts : ℕ
  pub sw : ℕ

module _ {Script : Type 0} (consensus : Consensus Script) where
  unfoldable pub new : Spend Script → ℕ → Bool → ℕ → Outcome UntrustedHashTransactionInputStart
  new spend index continuing apdu_size = do
    e ← encode_spend_inputs_with_cutpoints consensus apdu_size spend index
    ok (record {
      continuing = continuing;
      ser_inputs = e.buf;
      cuts = e.cuts;
      sent_cuts = 0;
      sw = 0;
    })

unfoldable pub header : UntrustedHashTransactionInputStart → List ℕ
header c =
    btchip_cla
    ∷ ins_untrusted_hash_transaction_input_start
    ∷ (if not (c.sent_cuts == 0) then 0x80 else 0x00)
    ∷ (if c.continuing then 0x80 else 0x00)
    ∷ 0x00
    ∷ []

unfoldable pub encode_next :
    ℕ
    → UntrustedHashTransactionInputStart
    → Outcome (Option (List ℕ) × UntrustedHashTransactionInputStart)
encode_next apdu_size c = do
  end ← all_sent c.cuts c.sent_cuts
  let next = (do
    (sent, ret) ← fill_packet apdu_size c.ser_inputs c.cuts c.sent_cuts (header c)
    msg ← seal apdu_size ret
    ok (some msg, record c { sent_cuts = sent }))
  if end then ok (none, c) else next

-- A bare status word, whatever it is.
unfoldable pub decode_reply :
    List ℕ
    → UntrustedHashTransactionInputStart
    → Outcome (Unit {0}) × UntrustedHashTransactionInputStart
decode_reply (sw1 ∷ sw2 ∷ []) c = (ok tt, record c { sw = status_word sw1 sw2 })
decode_reply _ c = (err unsupported, c)

unfoldable pub into_reply : UntrustedHashTransactionInputStart → ℕ × List ℕ
into_reply c = (c.sw, [])

abbrev pub command : Command UntrustedHashTransactionInputStart
command = record { encode_next = encode_next; decode_reply = decode_reply; into_reply = into_reply }
