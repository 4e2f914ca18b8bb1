-- ===== src/Message/InputFinalize.antt =====
-- src/dongle/message.rs: `UntrustedHashTransactionInputFinalize`.
pub mod Laws
pub mod Final
pub mod Whole
use icebox.Prelude.{
  ℕ, ◌+◌, ◌-◌, ◌*◌, ◌%◌, ◌≤◌, ◌<◌, ◌≡◌, refl, Bool, true, false, not, ◌||◌, Option, none, some,
  List, [], ◌∷◌, ◌++◌, arith, length, ltb, leb, ◌==◌, if◌then◌else◌, set,
}
use icebox.Error.{Error, unsupported}
use icebox.Outcome.{Outcome, ok, err, panic, diverge, checked_sub, ◌>>=◌}
use icebox.Constants.{
  btchip_cla, ins_get_trusted_input, ins_untrusted_hash_transaction_input_start,
  ins_untrusted_hash_transaction_input_finalize,
}
use icebox.Bytes.{be_u32, be_path, status_word}
use icebox.Bitcoin.{Transaction, Consensus}
use icebox.Spend.{Spend}
use icebox.Cutpoints.{
  encode_transaction_with_cutpoints, encode_spend_inputs_with_cutpoints,
  encode_spend_outputs_with_cutpoints,
}
use icebox.Packets.{all_sent, fill_packet, seal}
use icebox.Command.{Command}
use icebox.Message.Status.{take_status, and_store}

pub record UntrustedHashTransactionInputFinalize : Type 0 where
  pub need_to_send_change_path : Bool
  pub change_path : List ℕ
  pub ser_outputs : List ℕ
  pub cuts : List ℕ
  pub sent_cuts : ℕ
  pub sw : ℕ

module _ {Script : Type 0} (consensus : Consensus Script) where
  unfoldable pub new : Spend Script → ℕ → Outcome UntrustedHashTransactionInputFinalize
  new spend apdu_size = do
    e ← encode_spend_outputs_with_cutpoints consensus apdu_size spend
    ok (record {
      need_to_send_change_path = ltb 0 spend.change_amount;
      change_path = spend.change_path;
      ser_outputs = e.buf;
      cuts = e.cuts;
      sent_cuts = 0;
      sw = 0;
    })

-- The first APDU, if there is change: the path to it.
unfoldable pub change_request : UntrustedHashTransactionInputFinalize → List ℕ
change_request c =
    btchip_cla
    ∷ ins_untrusted_hash_transaction_input_finalize
    ∷ 0xff
    ∷ 0x00
    ∷ ((1 + 4 * length c.change_path) % 256)
    ∷ (length c.change_path % 256)
    ∷ be_path c.change_path

abbrev pub header : List ℕ
header = btchip_cla ∷ ins_untrusted_hash_transaction_input_finalize ∷ 0x00 ∷ 0x00 ∷ 0x00 ∷ []

-- `if self.sent_cuts == self.cuts.len() - 1 { ret[2] = 0x80; }`
unfoldable pub mark_final : List ℕ → ℕ → List ℕ → Outcome (List ℕ)
mark_final cuts sent_cuts ret = do
  last ← checked_sub (length cuts) 1
  ok (if sent_cuts == last then set ret 2 0x80 else ret)

unfoldable pub encode_outputs :
    ℕ
    → UntrustedHashTransactionInputFinalize
    → Outcome (Option (List ℕ) × UntrustedHashTransactionInputFinalize)
encode_outputs apdu_size c = do
  end ← all_sent c.cuts c.sent_cuts
  let next = (do
    (sent, ret) ← fill_packet apdu_size c.ser_outputs c.cuts c.sent_cuts header
    marked ← mark_final c.cuts sent ret
    msg ← seal apdu_size marked
    ok (some msg, record c { sent_cuts = sent }))
  if end then ok (none, c) else next

unfoldable pub encode_next :
    ℕ
    → UntrustedHashTransactionInputFinalize
    → Outcome (Option (List ℕ) × UntrustedHashTransactionInputFinalize)
encode_next apdu_size c =
    if c.need_to_send_change_path
    then ok (some (change_request c), record c { need_to_send_change_path = false })
    else encode_outputs apdu_size c

-- Two to four bytes, of which the last two are the status word.
unfoldable pub decode_reply :
    List ℕ
    → UntrustedHashTransactionInputFinalize
    → Outcome (Unit {0}) × UntrustedHashTransactionInputFinalize
decode_reply bytes c =
    if ltb 4 (length bytes) || ltb (length bytes) 2
    then (err unsupported, c)
    else and_store (take_status bytes) (λ sw reply. record c { sw = sw }) c

unfoldable pub into_reply : UntrustedHashTransactionInputFinalize → ℕ × List ℕ
into_reply c = (c.sw, [])

abbrev pub command : Command UntrustedHashTransactionInputFinalize
command = record { encode_next = encode_next; decode_reply = decode_reply; into_reply = into_reply }
