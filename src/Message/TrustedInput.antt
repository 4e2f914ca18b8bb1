-- ===== src/Message/TrustedInput.antt =====
-- src/dongle/message.rs: `GetTrustedInput`.
pub mod Laws
pub mod Whole
use icebox.Prelude.{
  ℕ, ◌+◌, ◌-◌, ◌*◌, ◌%◌, ◌≤◌, ◌<◌, ◌≡◌, refl, Bool, true, false, not, Option, none, some, List, [],
  ◌∷◌, ◌++◌, arith, length, ltb, leb, ◌==◌, if◌then◌else◌, set,
}
use icebox.Error.{Error, unsupported}
use icebox.Outcome.{Outcome, ok, err, panic, diverge, checked_sub, ◌>>=◌}
use icebox.Constants.{
  btchip_cla, ins_get_trusted_input, ins_untrusted_hash_transaction_input_start,
  ins_untrusted_hash_transaction_input_finalize,
}
use icebox.Bytes.{be_u32, be_path, status_word}
use icebox.Bitcoin.{Transaction, Consensus}
use icebox.Spend.{Spend}
use icebox.Cutpoints.{
  encode_transaction_with_cutpoints, encode_spend_inputs_with_cutpoints,
  encode_spend_outputs_with_cutpoints,
}
use icebox.Packets.{all_sent, fill_packet, seal}
use icebox.Command.{Command}
use icebox.Message.Status.{take_status, and_store}

pub record GetTrustedInput : Type 0 where
  pub sent_cuts : ℕ
  pub reply : List ℕ
  pub sw : ℕ
  pub ser_tx : List ℕ
  pub cuts : List ℕ
  pub vout : ℕ

module _ {Script : Type 0} (consensus : Consensus Script) where
  unfoldable pub new : Transaction Script → ℕ → ℕ → Outcome GetTrustedInput
  new tx vout apdu_size = do
    max_size ← checked_sub apdu_size 9
    e ← encode_transaction_with_cutpoints consensus max_size tx
    ok (record { sent_cuts = 0; reply = []; sw = 0; ser_tx = e.buf; cuts = e.cuts; vout = vout })

-- The header, with a byte for the length; the first APDU goes on with the output's index.
unfoldable pub header : GetTrustedInput → List ℕ
header c =
    btchip_cla
    ∷ ins_get_trusted_input
    ∷ (if c.sent_cuts == 0 then 0x00 ∷ 0x00 ∷ 0x00 ∷ be_u32 c.vout else 0x80 ∷ 0x00 ∷ 0x00 ∷ [])

unfoldable pub encode_next : ℕ → GetTrustedInput → Outcome (Option (List ℕ) × GetTrustedInput)
encode_next apdu_size c = do
  end ← all_sent c.cuts c.sent_cuts
  let next = (do
    (sent, ret) ← fill_packet apdu_size c.ser_tx c.cuts c.sent_cuts (header c)
    msg ← seal apdu_size ret
    ok (some msg, record c { sent_cuts = sent }))
  if end then ok (none, c) else next

unfoldable pub decode_reply : List ℕ → GetTrustedInput → Outcome (Unit {0}) × GetTrustedInput
decode_reply bytes c =
    and_store (take_status bytes) (λ sw reply. record c { reply = reply; sw = sw }) c

unfoldable pub into_reply : GetTrustedInput → ℕ × List ℕ
into_reply c = (c.sw, c.reply)

abbrev pub command : Command GetTrustedInput
command = record { encode_next = encode_next; decode_reply = decode_reply; into_reply = into_reply }
