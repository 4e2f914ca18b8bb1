-- ===== src/Message/InputStart/Whole.antt =====
-- What `UntrustedHashTransactionInputStart` sends for the inputs of a spend, and the cuts at which
-- it makes no progress.
use icebox.Prelude.{
  ℕ, zero, suc, ◌+◌, ◌-◌, ◌≤◌, ◌<◌, ◌≡◌, refl, sym, ap, ◌∙◌, some, List, [], length, arith, All,
  Bool, ◌∷◌, replicate, not, ◌==◌, if◌then◌else◌,
}
use icebox.Outcome.{ok, diverge, ok_value}
use icebox.Bitcoin.{Consensus}
use icebox.Spend.{Spend}
use icebox.Constants.{max_apdu_size, btchip_cla, ins_untrusted_hash_transaction_input_start}
use icebox.Cutpoints.Gaps.{IsCut}
use icebox.Cutpoints.Whole.{concat_map, spend_inputs_bytes, encode_spend_inputs_lem}
use icebox.Command.Transcript.{transcript, first_apdus}
use icebox.Packets.Cuts.{cut_first}
use icebox.Packets.Fill.{cut, fill_packet_none}
use icebox.Packets.Seal.{all_sent_more, seal_lem}
use icebox.Packets.Whole.{IsApdu, send_whole}
use icebox.Message.InputStart.{
  UntrustedHashTransactionInputStart, new, header, encode_next, command,
}
use icebox.Message.InputStart.Laws.{IsReady, payload, cut_command}

module _ {Script : Type 0} (consensus : Consensus Script) where
  -- A new command has sent nothing, and holds the serialisation with cuts up to 260 bytes apart.
  pub record Made (spend : Spend Script) (index : ℕ) (continuing : Bool) : Type 0 where
    pub command : UntrustedHashTransactionInputStart
    pub made : new consensus spend index continuing max_apdu_size ≡ ok command
    pub holds : command.ser_inputs ≡ spend_inputs_bytes consensus spend index
    pub unsent : command.sent_cuts ≡ 0
    pub cut : IsCut 260 command.ser_inputs command.cuts

  pub new_lem : (spend : Spend Script) (index : ℕ) (continuing : Bool) → Made spend index continuing
  unfolding new
  new_lem spend index continuing =
      let (e, is, bytes, cut) = encode_spend_inputs_lem consensus 260 (omega arith) spend index in
      record {
        command = record {
          continuing = continuing;
          ser_inputs = e.buf;
          cuts = e.cuts;
          sent_cuts = 0;
          sw = 0;
        };
        made = rw is;
        holds = bytes;
        unsent = refl;
        cut = cut;
      }

  -- For every spend and index: whenever the command that `new` gives has cuts at most 254 bytes
  -- apart, then with fuel for the cuts, the APDUs that it sends have less than 260 bytes, each
  -- with its length in the fifth byte, and carry the version and the inputs of the spend in
  -- order, with the script at that index alone, and nothing more; then it ends.
  pub input_start_sends :
      (spend : Spend Script) (index fuel : ℕ) (continuing : Bool)
      (c : UntrustedHashTransactionInputStart)
      → new consensus spend index continuing max_apdu_size ≡ ok c
      → IsCut 254 c.ser_inputs c.cuts
      → length c.cuts ≤ fuel
      → (msgs : List (List ℕ)) × (transcript command fuel c ≡ ok msgs)
        × (concat_map payload msgs ≡ spend_inputs_bytes consensus spend index)
        × All IsApdu msgs
  unfolding cut_command
  input_start_sends spend index fuel continuing c e near enough =
      let x = new_lem spend index continuing in
      let same : x.command ≡ c = ok_value (sym x.made ∙ e) in
      let unsent : c.sent_cuts ≡ 0 = ap (λ d. d.sent_cuts) (sym same) ∙ x.unsent in
      let ready : IsReady c = record {
        cut = near;
        inside = omega (arith, unsent, (cut_first 254 near).0);
      } in
      let (msgs, sent, carried, apdus) = send_whole cut_command fuel c ready unsent enough in
      (msgs, sent, carried ∙ ap (λ d. d.ser_inputs) (sym same) ∙ x.holds, apdus)

-- Where the next piece has 255 bytes or more, `encode_next` gives an APDU without data and leaves
-- the command as it is.
pub encode_next_stalls :
    (m : ℕ) (c : UntrustedHashTransactionInputStart)
    → IsCut m c.ser_inputs c.cuts
    → c.sent_cuts + 1 < length c.cuts
    → 255 ≤ cut c.cuts (c.sent_cuts + 1) - cut c.cuts c.sent_cuts
    → encode_next max_apdu_size c ≡ ok (some (header c), c)
unfolding encode_next header
encode_next_stalls m c near h wide = rw (
  all_sent_more c.cuts c.sent_cuts h,
  fill_packet_none m 260 c.ser_inputs c.cuts near c.sent_cuts (header c) h (omega arith),
  seal_lem 260 btchip_cla ins_untrusted_hash_transaction_input_start _ _ 0 [] (omega arith),
)

-- The header alone: no data, and the length 0.
abbrev pub bare_apdu : Bool → Bool → List ℕ
bare_apdu started continuing =
    0xe0 ∷ 0x44 ∷ (if started then 0x80 else 0x00) ∷ (if continuing then 0x80 else 0x00) ∷ 0x00 ∷ []

transcript_diverges :
    (m : ℕ) (c : UntrustedHashTransactionInputStart) (fuel : ℕ)
    → IsCut m c.ser_inputs c.cuts
    → c.sent_cuts + 1 < length c.cuts
    → 255 ≤ cut c.cuts (c.sent_cuts + 1) - cut c.cuts c.sent_cuts
    → transcript command fuel c ≡ diverge
unfolding transcript
transcript_diverges m c zero near h wide = refl
transcript_diverges m c (suc fuel) near h wide =
    rw (encode_next_stalls m c near h wide, transcript_diverges m c fuel near h wide)

first_apdus_bare :
    (m : ℕ) (c : UntrustedHashTransactionInputStart) (n : ℕ)
    → IsCut m c.ser_inputs c.cuts
    → c.sent_cuts + 1 < length c.cuts
    → 255 ≤ cut c.cuts (c.sent_cuts + 1) - cut c.cuts c.sent_cuts
    → first_apdus command n c ≡ ok (replicate n (bare_apdu (not (c.sent_cuts == 0)) c.continuing))
unfolding first_apdus header
first_apdus_bare m c zero near h wide = refl
first_apdus_bare m c (suc n) near h wide =
    rw (encode_next_stalls m c near h wide, first_apdus_bare m c n near h wide)

-- For a command whose cuts are in order and reach the end: where the next piece has 255 bytes or
-- more, the command ends with no fuel, and for every number n its first n APDUs are n times the same
-- header without data.
pub transcript_stalls :
    (m : ℕ) (c : UntrustedHashTransactionInputStart) (n : ℕ)
    → IsCut m c.ser_inputs c.cuts
    → c.sent_cuts + 1 < length c.cuts
    → 255 ≤ cut c.cuts (c.sent_cuts + 1) - cut c.cuts c.sent_cuts
    → (transcript command n c ≡ diverge)
      × (first_apdus command n c
          ≡ ok (replicate n (bare_apdu (not (c.sent_cuts == 0)) c.continuing)))
transcript_stalls m c n near h wide =
    (transcript_diverges m c n near h wide, first_apdus_bare m c n near h wide)
