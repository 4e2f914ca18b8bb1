-- ===== src/Message/InputStart/Laws.antt =====
-- `UntrustedHashTransactionInputStart` sends the whole serialisation, where its cuts are at most 254
-- bytes apart.
use icebox.Prelude.{
  ℕ, ◌+◌, ◌%◌, ◌<◌, ◌≡◌, refl, not, List, [], ◌∷◌, arith, length, ◌==◌, if◌then◌else◌, drop, slice,
}
use icebox.Outcome.{Returns}
use icebox.Constants.{btchip_cla, ins_untrusted_hash_transaction_input_start}
use icebox.Bytes.{status_word}
use icebox.Cutpoints.Gaps.{IsCut}
use icebox.Packets.Cuts.{cut_step}
use icebox.Packets.Fill.{cut, packet_lem}
use icebox.Packets.Seal.{all_sent_end, all_sent_more, seal_lem}
use icebox.Packets.Whole.{Sent, CutCommand}
use icebox.Message.InputStart.{
  ◌==◌, length, not, status_word, if◌then◌else◌, ◌<◌, ◌∷◌, List, ℕ, ◌+◌,
  UntrustedHashTransactionInputStart, header, encode_next, decode_reply, command,
}
use icebox.Packets.Whole.{Sent, CutCommand}

-- The cuts fit the serialisation and are at most 254 bytes apart.
pub record IsReady (c : UntrustedHashTransactionInputStart) : Type 0 where
  pub cut : IsCut 254 c.ser_inputs c.cuts
  pub inside : c.sent_cuts < length c.cuts

abbrev pub payload : List ℕ → List ℕ
payload msg = drop 5 msg

abbrev p1 : UntrustedHashTransactionInputStart → ℕ
p1 c = if not (c.sent_cuts == 0) then 0x80 else 0x00

abbrev p2 : UntrustedHashTransactionInputStart → ℕ
p2 c = if c.continuing then 0x80 else 0x00

pub encodes :
    (c : UntrustedHashTransactionInputStart)
    → IsReady c
    → c.sent_cuts + 1 < length c.cuts
    → Sent command IsReady (λ d. d.ser_inputs) (λ d. d.cuts) (λ d. d.sent_cuts) payload c
unfolding encode_next header
encodes c r h =
    let x =
      packet_lem 254 260 c.ser_inputs c.cuts r.cut c.sent_cuts btchip_cla
        ins_untrusted_hash_transaction_input_start (p1 c) (p2 c) [] h
        (omega (arith, cut_step 254 r.cut c.sent_cuts h)) in
    let body : List ℕ = slice (cut c.cuts c.sent_cuts) (cut c.cuts x.to) c.ser_inputs in
    record {
      msg =
          btchip_cla
          ∷ ins_untrusted_hash_transaction_input_start
          ∷ p1 c
          ∷ p2 c
          ∷ (length body % 256)
          ∷ body;
      after = record c { sent_cuts = x.to };
      encoded = rw (
        all_sent_more c.cuts c.sent_cuts h,
        x.filled,
        seal_lem 260 _ _ (p1 c) (p2 c) 0 body x.size,
      );
      moves = x.moves;
      same_ser = refl;
      same_cuts = refl;
      ready = record { cut = r.cut; inside = x.inside };
      ordered = x.ordered;
      carries = refl;
      nonempty = omega arith;
      whole = (omega (arith, x.size), omega (arith, x.size));
    }

pub decode_keeps :
    (P : UntrustedHashTransactionInputStart → Type 0)
    → ((c : UntrustedHashTransactionInputStart) (n : ℕ) → P c → P (record c { sw = n }))
    → (c : UntrustedHashTransactionInputStart) (reply : List ℕ) → P c
    → P (decode_reply reply c).1
unfolding decode_reply
decode_keeps P k c [] p = p
decode_keeps P k c (a ∷ []) p = p
decode_keeps P k c (a ∷ b ∷ []) p = k c (status_word a b) p
decode_keeps P k c (a ∷ b ∷ x ∷ r) p = p

pub decode-Returns :
    (c : UntrustedHashTransactionInputStart) (reply : List ℕ) → Returns (decode_reply reply c).0
unfolding decode_reply
decode-Returns c [] = tt
decode-Returns c (a ∷ []) = tt
decode-Returns c (a ∷ b ∷ []) = tt
decode-Returns c (a ∷ b ∷ x ∷ r) = tt

unfoldable pub cut_command : CutCommand command IsReady
unfolding encode_next
cut_command = record {
  ser = λ c. c.ser_inputs;
  cuts = λ c. c.cuts;
  sent_cuts = λ c. c.sent_cuts;
  payload = payload;
  max_size = 254;
  is_cut = λ c r. r.cut;
  inside = λ c r. r.inside;
  encodes_end = λ c r end. rw (all_sent_end c.cuts c.sent_cuts end);
  encodes = encodes;
  decode_returns = decode-Returns;
  decode_keeps = λ c reply r.
      decode_keeps IsReady (λ d n s. record { cut = s.cut; inside = s.inside }) c reply r;
  sent-decode = λ c reply. decode_keeps (λ d. d.sent_cuts ≡ c.sent_cuts) (λ d n e. e) c reply refl;
  cuts-decode = λ c reply. decode_keeps (λ d. d.cuts ≡ c.cuts) (λ d n e. e) c reply refl;
}
