-- ===== src/Message/TrustedInput/Laws.antt =====
-- `GetTrustedInput` sends the whole serialisation, and ends.
use icebox.Prelude.{
  ℕ, ◌+◌, ◌-◌, ◌%◌, ◌≤◌, ◌<◌, ◌≡◌, refl, Bool-cases, inl, inr, List, [], ◌∷◌, ◌++◌, arith, length,
  ◌==◌, if◌then◌else◌, get_or, drop, slice,
}
use icebox.Constants.{btchip_cla, ins_get_trusted_input}
use icebox.Bytes.{be_u32}
use icebox.Cutpoints.Gaps.{IsCut}
use icebox.Packets.Cuts.{cut_step}
use icebox.Packets.Fill.{cut, packet_lem}
use icebox.Packets.Seal.{all_sent_end, all_sent_more, seal_lem}
use icebox.Packets.Whole.{Sent, CutCommand}
use icebox.Message.Status.{
  take_status, and_store, take_status-Returns, and_store-Returns, and_store_keeps,
}
use icebox.Message.TrustedInput.{GetTrustedInput, header, encode_next, decode_reply, command}

-- The cuts fit the serialisation and are at most 251 bytes apart, the first at most 250.
pub record IsReady (c : GetTrustedInput) : Type 0 where
  pub cut : IsCut 251 c.ser_tx c.cuts
  pub inside : c.sent_cuts < length c.cuts
  pub first : get_or c.cuts 1 0 ≤ 250

-- The bytes of the transaction in an APDU: behind the index of the output in the first one.
abbrev pub payload : List ℕ → List ℕ
payload msg = drop (if get_or msg 2 0 == 0 then 9 else 5) msg

abbrev front : GetTrustedInput → List ℕ
front c = if c.sent_cuts == 0 then be_u32 c.vout else []

abbrev p1 : GetTrustedInput → ℕ
p1 c = if c.sent_cuts == 0 then 0 else 0x80

header_lem :
    (c : GetTrustedInput) → header c ≡ btchip_cla ∷ ins_get_trusted_input ∷ p1 c ∷ 0 ∷ 0 ∷ front c
unfolding header
header_lem c = elim (Bool-cases (c.sent_cuts == 0)) [ inl e ↦ rw e | inr e ↦ rw e ]

payload_lem :
    (c : GetTrustedInput) (n : ℕ) (part : List ℕ)
    → payload (btchip_cla ∷ ins_get_trusted_input ∷ p1 c ∷ 0 ∷ n ∷ (front c ++ part)) ≡ part
payload_lem c n part = elim (Bool-cases (c.sent_cuts == 0)) [ inl e ↦ rw e | inr e ↦ rw e ]

room :
    (c : GetTrustedInput)
    → IsReady c
    → c.sent_cuts + 1 < length c.cuts
    → 5 + length (front c) + (cut c.cuts (c.sent_cuts + 1) - cut c.cuts c.sent_cuts) < 260
room c r h = elim (Bool-cases (c.sent_cuts == 0)) [
  | inl e ↦
      let one : c.sent_cuts + 1 ≡ 1 = ground arith in
      let bound : get_or c.cuts (c.sent_cuts + 1) 0 ≤ 250 = rw one r.first in rw e (omega arith)
  | inr e ↦ rw e (omega (arith, cut_step 251 r.cut c.sent_cuts h))
]

pub encodes :
    (c : GetTrustedInput)
    → IsReady c
    → c.sent_cuts + 1 < length c.cuts
    → Sent command IsReady (λ d. d.ser_tx) (λ d. d.cuts) (λ d. d.sent_cuts) payload c
unfolding encode_next
encodes c r h =
    let x =
      packet_lem 251 260 c.ser_tx c.cuts r.cut c.sent_cuts btchip_cla ins_get_trusted_input (p1 c) 0
        (front c) h (room c r h) in
    let body : List ℕ = front c ++ slice (cut c.cuts c.sent_cuts) (cut c.cuts x.to) c.ser_tx in
    record {
      msg = btchip_cla ∷ ins_get_trusted_input ∷ p1 c ∷ 0 ∷ (length body % 256) ∷ body;
      after = record c { sent_cuts = x.to };
      encoded = rw (
        all_sent_more c.cuts c.sent_cuts h,
        header_lem c,
        x.filled,
        seal_lem 260 _ _ (p1 c) 0 0 body x.size,
      );
      moves = x.moves;
      same_ser = refl;
      same_cuts = refl;
      ready = record { cut = r.cut; inside = x.inside; first = r.first };
      ordered = x.ordered;
      carries = payload_lem c _ _;
      nonempty = omega arith;
      whole = (omega (arith, x.size), omega (arith, x.size));
    }

unfoldable pub cut_command : CutCommand command IsReady
unfolding decode_reply and_store encode_next
cut_command = record {
  ser = λ c. c.ser_tx;
  cuts = λ c. c.cuts;
  sent_cuts = λ c. c.sent_cuts;
  payload = payload;
  max_size = 251;
  is_cut = λ c r. r.cut;
  inside = λ c r. r.inside;
  encodes_end = λ c r end. rw (all_sent_end c.cuts c.sent_cuts end);
  encodes = encodes;
  decode_returns = λ c reply. and_store-Returns (take_status reply) _ c (take_status-Returns reply);
  decode_keeps = λ c reply r.
      and_store_keeps IsReady (take_status reply) _ c r
        λ sw t. record { cut = r.cut; inside = r.inside; first = r.first };
  sent-decode = λ c reply.
      and_store_keeps (λ d. d.sent_cuts ≡ c.sent_cuts) (take_status reply) _ c refl (λ sw t. refl);
  cuts-decode =
      λ c reply. and_store_keeps (λ d. d.cuts ≡ c.cuts) (take_status reply) _ c refl (λ sw t. refl);
}
