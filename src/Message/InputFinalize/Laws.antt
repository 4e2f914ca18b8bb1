-- ===== src/Message/InputFinalize/Laws.antt =====
-- `UntrustedHashTransactionInputFinalize`: the path of the change goes first, if there is change, and
-- then the whole serialisation, where its cuts are at most 254 bytes apart.
use icebox.Prelude.{
  ℕ, ◌+◌, ◌-◌, ◌%◌, ◌<◌, ◌≡◌, refl, false, ◌||◌, ltb, Bool-cases, inl, inr, List, [], ◌∷◌, arith,
  length, ◌==◌, if◌then◌else◌, drop, slice,
}
use icebox.Outcome.{ok, Returns, checked_sub_ok}
use icebox.Constants.{btchip_cla, ins_untrusted_hash_transaction_input_finalize}
use icebox.Cutpoints.Gaps.{IsCut}
use icebox.Packets.Cuts.{cut_step}
use icebox.Packets.Fill.{cut, packet_lem}
use icebox.Packets.Seal.{all_sent_end, all_sent_more, seal_lem}
use icebox.Packets.Whole.{Sent, CutCommand}
use icebox.Message.Status.{take_status, take_status-Returns, and_store-Returns, and_store_keeps}
use icebox.Message.InputFinalize.{
  UntrustedHashTransactionInputFinalize, mark_final, encode_outputs, encode_next, decode_reply,
  command,
}

-- The change path is sent; the cuts fit the serialisation and are at most 254 bytes apart.
pub record IsReady (c : UntrustedHashTransactionInputFinalize) : Type 0 where
  pub path_sent : c.need_to_send_change_path ≡ false
  pub cut : IsCut 254 c.ser_outputs c.cuts
  pub inside : c.sent_cuts < length c.cuts

abbrev pub payload : List ℕ → List ℕ
payload msg = drop 5 msg

-- The mark of the last APDU.
abbrev pub p1 : List ℕ → ℕ → ℕ
p1 cuts sent = if sent == length cuts - 1 then 0x80 else 0x00

pub mark_final_lem :
    (cuts : List ℕ) (sent a b : ℕ) (rest : List ℕ)
    → 0 < length cuts
    → mark_final cuts sent (a ∷ b ∷ 0x00 ∷ rest) ≡ ok (a ∷ b ∷ p1 cuts sent ∷ rest)
unfolding mark_final
mark_final_lem cuts sent a b rest h =
    rw (checked_sub_ok (length cuts) 1 h)
      (elim (Bool-cases (sent == length cuts - 1)) [ inl e ↦ rw e refl | inr e ↦ rw e refl ])

unfoldable pub encodes :
    (c : UntrustedHashTransactionInputFinalize)
    → IsReady c
    → c.sent_cuts + 1 < length c.cuts
    → Sent command IsReady (λ d. d.ser_outputs) (λ d. d.cuts) (λ d. d.sent_cuts) payload c
unfolding encode_next encode_outputs
encodes c r h =
    let x =
      packet_lem 254 260 c.ser_outputs c.cuts r.cut c.sent_cuts btchip_cla
        ins_untrusted_hash_transaction_input_finalize 0 0 [] h
        (omega (arith, cut_step 254 r.cut c.sent_cuts h)) in
    let body : List ℕ = slice (cut c.cuts c.sent_cuts) (cut c.cuts x.to) c.ser_outputs in
    record {
      msg =
          btchip_cla
          ∷ ins_untrusted_hash_transaction_input_finalize
          ∷ p1 c.cuts x.to
          ∷ 0
          ∷ (length body % 256)
          ∷ body;
      after = record c { sent_cuts = x.to };
      encoded = rw (
        r.path_sent,
        all_sent_more c.cuts c.sent_cuts h,
        x.filled,
        mark_final_lem c.cuts x.to btchip_cla ins_untrusted_hash_transaction_input_finalize _
            (omega arith),
        seal_lem 260 _ _ (p1 c.cuts x.to) 0 0 body x.size,
      );
      moves = x.moves;
      same_ser = refl;
      same_cuts = refl;
      ready = record { path_sent = r.path_sent; cut = r.cut; inside = x.inside };
      ordered = x.ordered;
      carries = refl;
      nonempty = omega arith;
      whole = (omega (arith, x.size), omega (arith, x.size));
    }

pub decode_keeps :
    (P : UntrustedHashTransactionInputFinalize → Type 0)
    → ((c : UntrustedHashTransactionInputFinalize) (n : ℕ) → P c → P (record c { sw = n }))
    → (c : UntrustedHashTransactionInputFinalize) (reply : List ℕ) → P c
    → P (decode_reply reply c).1
unfolding decode_reply
decode_keeps P k c reply p = elim (Bool-cases (ltb 4 (length reply) || ltb (length reply) 2)) [
  | inl e ↦ rw e p
  | inr e ↦ rw e (and_store_keeps P (take_status reply) _ c p (λ sw t. k c sw p))
]

pub decode-Returns :
    (c : UntrustedHashTransactionInputFinalize) (reply : List ℕ) → Returns (decode_reply reply c).0
unfolding decode_reply
decode-Returns c reply = elim (Bool-cases (ltb 4 (length reply) || ltb (length reply) 2)) [
  | inl e ↦ rw e tt
  | inr e ↦ rw e (and_store-Returns (take_status reply) _ c (take_status-Returns reply))
]

unfoldable pub cut_command : CutCommand command IsReady
unfolding encode_next encode_outputs
cut_command = record {
  ser = λ c. c.ser_outputs;
  cuts = λ c. c.cuts;
  sent_cuts = λ c. c.sent_cuts;
  payload = payload;
  max_size = 254;
  is_cut = λ c r. r.cut;
  inside = λ c r. r.inside;
  encodes_end = λ c r end. rw (r.path_sent, all_sent_end c.cuts c.sent_cuts end);
  encodes = encodes;
  decode_returns = decode-Returns;
  decode_keeps = λ c reply r.
      decode_keeps IsReady
        (λ d n s. record { path_sent = s.path_sent; cut = s.cut; inside = s.inside }) c reply r;
  sent-decode = λ c reply. decode_keeps (λ d. d.sent_cuts ≡ c.sent_cuts) (λ d n e. e) c reply refl;
  cuts-decode = λ c reply. decode_keeps (λ d. d.cuts ≡ c.cuts) (λ d n e. e) c reply refl;
}
