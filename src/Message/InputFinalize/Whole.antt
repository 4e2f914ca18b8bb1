-- ===== src/Message/InputFinalize/Whole.antt =====
-- What `UntrustedHashTransactionInputFinalize` sends for the outputs of a spend.
use icebox.Prelude.{
  ℕ, suc, ◌+◌, ◌*◌, ◌%◌, ◌≤◌, ◌≡◌, refl, sym, ap, subst, ◌∙◌, inl, inr, true, false, Bool-cases,
  ltb, List, [], ◌∷◌, ◌++◌, if◌then◌else◌, length, arith, All,
}
use icebox.Outcome.{ok, ok_value}
use icebox.Bytes.{be_u32, be_path}
use icebox.Bitcoin.{Consensus}
use icebox.Spend.{Spend}
use icebox.Constants.{max_apdu_size}
use icebox.Cutpoints.Gaps.{IsCut}
use icebox.Cutpoints.Whole.{concat_map, spend_outputs_bytes, encode_spend_outputs_lem}
use icebox.Command.Transcript.{transcript}
use icebox.Packets.Cuts.{cut_first}
use icebox.Packets.Whole.{IsApdu, send_whole}
use icebox.Message.InputFinalize.{
  UntrustedHashTransactionInputFinalize, new, change_request, encode_next, command,
}
use icebox.Message.InputFinalize.Laws.{payload, cut_command}

-- The APDU for the path to the change: the path's steps of four bytes each, behind their number.
abbrev pub path_apdu : List ℕ → List ℕ
path_apdu path =
    0xe0
    ∷ 0x4a
    ∷ 0xff
    ∷ 0x00
    ∷ ((1 + 4 * length path) % 256)
    ∷ (length path % 256)
    ∷ concat_map be_u32 path

be_path-concat_map : (path : List ℕ) → be_path path ≡ concat_map be_u32 path
unfolding be_path
be_path-concat_map [] = refl
be_path-concat_map (n ∷ path) = ap (λ t. be_u32 n ++ t) (be_path-concat_map path)

change_request-path_apdu :
    (c : UntrustedHashTransactionInputFinalize) → change_request c ≡ path_apdu c.change_path
unfolding change_request
change_request-path_apdu c =
    ap
      (λ t.
        0xe0
        ∷ 0x4a
        ∷ 0xff
        ∷ 0x00
        ∷ ((1 + 4 * length c.change_path) % 256)
        ∷ (length c.change_path % 256)
        ∷ t)
      (be_path-concat_map c.change_path)

abbrev pub change_apdus : UntrustedHashTransactionInputFinalize → List (List ℕ)
change_apdus c = if c.need_to_send_change_path then path_apdu c.change_path ∷ [] else []

-- A command that has sent nothing but perhaps the path.
abbrev AllSent : UntrustedHashTransactionInputFinalize → ℕ → List (List ℕ) → Type 0
AllSent c fuel first =
    (msgs : List (List ℕ)) × (transcript command fuel c ≡ ok (first ++ msgs))
    × (concat_map payload msgs ≡ c.ser_outputs)
    × All IsApdu msgs

outputs_sent :
    (c : UntrustedHashTransactionInputFinalize) (fuel : ℕ)
    → c.need_to_send_change_path ≡ false
    → IsCut 254 c.ser_outputs c.cuts
    → c.sent_cuts ≡ 0
    → length c.cuts ≤ fuel
    → AllSent c fuel []
unfolding cut_command
outputs_sent c fuel sent near unsent enough =
    send_whole cut_command fuel c
      (record {
        path_sent = sent;
        cut = near;
        inside = omega (arith, unsent, (cut_first 254 near).0);
      })
      unsent enough

change_apdus_none :
    (c : UntrustedHashTransactionInputFinalize)
    → c.need_to_send_change_path ≡ false
    → change_apdus c ≡ []
change_apdus_none c e = rw e

change_apdus_one :
    (c : UntrustedHashTransactionInputFinalize)
    → c.need_to_send_change_path ≡ true
    → change_apdus c ≡ path_apdu c.change_path ∷ []
change_apdus_one c e = rw e

send_change :
    (c : UntrustedHashTransactionInputFinalize) (fuel : ℕ) (msgs : List (List ℕ))
    → c.need_to_send_change_path ≡ true
    → transcript command fuel (record c { need_to_send_change_path = false }) ≡ ok msgs
    → transcript command (suc fuel) c ≡ ok (path_apdu c.change_path ∷ msgs)
unfolding transcript encode_next change_request
send_change c fuel msgs change sent = rw (change, sent, ← be_path-concat_map c.change_path)

all_sent :
    (c : UntrustedHashTransactionInputFinalize) (fuel : ℕ)
    → IsCut 254 c.ser_outputs c.cuts
    → c.sent_cuts ≡ 0
    → length c.cuts ≤ fuel
    → AllSent c (suc fuel) (change_apdus c)
all_sent c fuel near unsent enough = elim (Bool-cases c.need_to_send_change_path) [
  | inr sent ↦
      subst (AllSent c (suc fuel)) (sym (change_apdus_none c sent))
        (outputs_sent c (suc fuel) sent near unsent (omega arith))
  | inl change ↦
      let d = record c { need_to_send_change_path = false } in
      let (msgs, is, carried, apdus) = outputs_sent d fuel refl near unsent enough in
      subst (AllSent c (suc fuel)) (sym (change_apdus_one c change))
        (msgs, send_change c fuel msgs change is, carried, apdus)
]

module _ {Script : Type 0} (consensus : Consensus Script) where
  -- A new command has sent nothing, and holds the serialisation with cuts up to 260 bytes apart.
  pub record Made (spend : Spend Script) : Type 0 where
    pub command : UntrustedHashTransactionInputFinalize
    pub made : new consensus spend max_apdu_size ≡ ok command
    pub holds : command.ser_outputs ≡ spend_outputs_bytes consensus spend
    pub unsent : command.sent_cuts ≡ 0
    pub path : command.change_path ≡ spend.change_path
    pub change : command.need_to_send_change_path ≡ ltb 0 spend.change_amount

  pub new_lem : (spend : Spend Script) → Made spend
  unfolding new
  new_lem spend =
      let (e, is, bytes, cut) = encode_spend_outputs_lem consensus 260 (omega arith) spend in
      record {
        command = record {
          need_to_send_change_path = ltb 0 spend.change_amount;
          change_path = spend.change_path;
          ser_outputs = e.buf;
          cuts = e.cuts;
          sent_cuts = 0;
          sw = 0;
        };
        made = rw is;
        holds = bytes;
        unsent = refl;
        path = refl;
        change = refl;
      }

  -- For every spend: whenever the command that `new` gives has cuts at most 254 bytes apart, then
  -- with fuel for the cuts and one more, it sends first, if the change amount is above 0, the APDU
  -- with the steps of the spend's change path behind their number (path_apdu), and then APDUs of less than 260 bytes, each with its length in the fifth byte, that
  -- carry the number of outputs and the outputs in order and nothing more; then it ends.
  pub input_finalize_sends :
      (spend : Spend Script) (fuel : ℕ) (c : UntrustedHashTransactionInputFinalize)
      → new consensus spend max_apdu_size ≡ ok c
      → IsCut 254 c.ser_outputs c.cuts
      → length c.cuts ≤ fuel
      → (msgs : List (List ℕ)) × (transcript command (suc fuel) c
          ≡ ok (
              (if ltb 0 spend.change_amount then path_apdu spend.change_path ∷ [] else []) ++ msgs))
        × (concat_map payload msgs ≡ spend_outputs_bytes consensus spend)
        × All IsApdu msgs
  input_finalize_sends spend fuel c e near enough =
      let x = new_lem spend in
      let same : x.command ≡ c = ok_value (sym x.made ∙ e) in
      let unsent : c.sent_cuts ≡ 0 = ap (λ d. d.sent_cuts) (sym same) ∙ x.unsent in
      let change : c.need_to_send_change_path ≡ ltb 0 spend.change_amount =
        ap (λ d. d.need_to_send_change_path) (sym same) ∙ x.change in
      let (msgs, sent, carried, apdus) = all_sent c fuel near unsent enough in
      let path : c.change_path ≡ spend.change_path = ap (λ d. d.change_path) (sym same) ∙ x.path in
      (
        msgs,
        rw (← change, ← path) sent,
        carried ∙ ap (λ d. d.ser_outputs) (sym same) ∙ x.holds,
        apdus,
      )
