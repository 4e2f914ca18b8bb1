-- ===== src/Message/TrustedInput/Whole.antt =====
-- What `GetTrustedInput` sends for a transaction.
use icebox.Outcome.{checked_sub_ok, ok}
use icebox.Message.TrustedInput.{GetTrustedInput, new, command}
use icebox.Packets.Cuts.{cut_first}
use icebox.Packets.Whole.{send_whole, IsApdu}
use icebox.Prelude.{◌+◌, ◌∙◌, ℕ, ◌≡◌, refl, List, [], length, get_or, arith, All}
use icebox.Bitcoin.{Transaction, Consensus}
use icebox.Constants.{max_apdu_size}
use icebox.Cutpoints.Whole.{
  concat_map, transaction_bytes, encode_transaction_lem, transaction_first,
}
use icebox.Command.Transcript.{transcript}
use icebox.Message.TrustedInput.Laws.{IsReady, payload, cut_command}

module _ {Script : Type 0} (consensus : Consensus Script)
    (u32 : (n : ℕ) → length (consensus.encode_u32 n) ≡ 4) where
  -- A new command is ready, has sent nothing, and holds the serialisation.
  pub record Made (tx : Transaction Script) (vout : ℕ) : Type 0 where
    pub command : GetTrustedInput
    pub made : new consensus tx vout max_apdu_size ≡ ok command
    pub holds : command.ser_tx ≡ transaction_bytes consensus tx
    pub index : command.vout ≡ vout
    pub unsent : command.sent_cuts ≡ 0
    pub ready : IsReady command

  pub new_lem : (tx : Transaction Script) (vout : ℕ) → Made tx vout
  unfolding new
  new_lem tx vout =
      let (e, is, bytes, cut) = encode_transaction_lem consensus 251 (omega arith) tx in
      let first : get_or e.cuts 1 0 ≡ length (consensus.encode_u32 tx.version) =
        transaction_first consensus 251 (omega arith) tx e is (omega (arith, u32 tx.version)) in
      record {
        command = record {
          sent_cuts = 0;
          reply = [];
          sw = 0;
          ser_tx = e.buf;
          cuts = e.cuts;
          vout = vout;
        };
        made = rw (checked_sub_ok max_apdu_size 9 (omega arith), is);
        holds = bytes;
        index = refl;
        unsent = refl;
        ready = record {
          cut = cut;
          inside = (cut_first 251 cut).0;
          first = omega (arith, first, u32 tx.version);
        };
      }

  -- For every transaction and output index, where the encoding of a u32 has four bytes: `new`
  -- succeeds, and with fuel for the cuts of the command, the APDUs that it sends have less than 260
  -- bytes, each with its length in the fifth byte, and carry the serialisation of the transaction
  -- and nothing more, in order; then it ends.
  pub get_trusted_input_sends :
      (tx : Transaction Script) (vout extra : ℕ)
      → (c : GetTrustedInput) × (new consensus tx vout max_apdu_size ≡ ok c)
        × ((msgs : List (List ℕ)) × (transcript command (length c.cuts + extra) c ≡ ok msgs)
            × (concat_map payload msgs ≡ transaction_bytes consensus tx)
            × All IsApdu msgs)
  unfolding cut_command
  get_trusted_input_sends tx vout extra =
      let x = new_lem tx vout in
      let (msgs, sent, carried, apdus) =
        send_whole cut_command (length x.command.cuts + extra) x.command x.ready x.unsent
          (omega arith) in
      (x.command, x.made, (msgs, sent, carried ∙ x.holds, apdus))
