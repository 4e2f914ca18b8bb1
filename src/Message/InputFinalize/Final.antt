-- ===== src/Message/InputFinalize/Final.antt =====
-- The mark of the last APDU of `UntrustedHashTransactionInputFinalize`.
use icebox.Message.InputFinalize.{
  none, encode_outputs, UntrustedHashTransactionInputFinalize, encode_next, command,
}
use icebox.Command.Transcript.{transcript_round, transcript}
use icebox.Prelude.{
  ◌∙◌, ℕ, zero, suc, ◌+◌, ◌-◌, ◌<◌, ◌≡◌, ◌⊎◌, inl, inr, refl, ap, subst, ◌==◌, true, false, List,
  [], ◌∷◌, length, get_or, arith,
}
use icebox.Outcome.{Outcome, ok, err, panic, diverge, ok_value, ◌>>=◌}
use icebox.Packets.Seal.{all_sent_end}
use icebox.Message.InputFinalize.Laws.{IsReady, p1, encodes}

-- The third byte of the last APDU is 0x80, and that of the others is 0.
abbrev pub IsMarked : List (List ℕ) → Type 0
IsMarked [] = Unit
IsMarked (m ∷ []) = get_or m 2 0 ≡ 0x80
IsMarked (m ∷ n ∷ ms) = (get_or m 2 0 ≡ 0x00) × IsMarked (n ∷ ms)

prepend :
    (m : List ℕ) (ms : List (List ℕ))
    → get_or m 2 0 ≡ 0x00
    → (ms ≡ [] → ⊥)
    → IsMarked ms
    → IsMarked (m ∷ ms)
prepend m [] e more k = absurd (more refl)
prepend m (n ∷ ms) e more k = (e, k)

-- The inversion of a transcript that goes on.
cons_elim :
    (o : Outcome (List (List ℕ))) (m : List ℕ) (msgs : List (List ℕ))
    → (o >>= λ rest. ok (m ∷ rest)) ≡ ok msgs
    → (rest : List (List ℕ)) × (o ≡ ok rest) × (m ∷ rest ≡ msgs)
cons_elim (ok rest) m msgs e = (rest, refl, ok_value e)
cons_elim (err x) m msgs e = cc
cons_elim panic m msgs e = cc
cons_elim diverge m msgs e = cc

transcript_end :
    (fuel : ℕ) (c : UntrustedHashTransactionInputFinalize) (msgs : List (List ℕ))
    → IsReady c
    → c.sent_cuts + 1 ≡ length c.cuts
    → transcript command fuel c ≡ ok msgs
    → [] ≡ msgs
unfolding transcript encode_next encode_outputs
transcript_end zero c msgs r end e = cc
transcript_end (suc fuel) c msgs r end e =
    let stop : encode_next 260 c ≡ ok (none, c) =
      rw (r.path_sent, all_sent_end c.cuts c.sent_cuts end) in
    ok_value (
      subst (λ o. (o >>= λ x. transcript_round command (transcript command fuel) x.0 x.1) ≡ ok msgs)
        stop e)

transcript_more :
    (fuel : ℕ) (c : UntrustedHashTransactionInputFinalize) (msgs : List (List ℕ)) (r : IsReady c)
    (h : c.sent_cuts + 1 < length c.cuts)
    → transcript command (suc fuel) c ≡ ok msgs
    → (rest : List (List ℕ)) × (transcript command fuel (encodes c r h).after ≡ ok rest)
      × ((encodes c r h).msg ∷ rest ≡ msgs)
unfolding transcript
transcript_more fuel c msgs r h e =
    let x = encodes c r h in
    cons_elim (transcript command fuel x.after) x.msg msgs (
      subst (λ o. (o >>= λ y. transcript_round command (transcript command fuel) y.0 y.1) ≡ ok msgs)
        x.encoded e)

third_byte :
    (c : UntrustedHashTransactionInputFinalize) (r : IsReady c)
    (h : c.sent_cuts + 1 < length c.cuts)
    → get_or (encodes c r h).msg 2 0 ≡ p1 c.cuts (encodes c r h).after.sent_cuts
unfolding encodes
third_byte c r h = refl

position :
    (c : UntrustedHashTransactionInputFinalize)
    → IsReady c
    → (c.sent_cuts + 1 ≡ length c.cuts) ⊎ (c.sent_cuts + 1 < length c.cuts)
position c r = omega (arith, r.inside)

nonempty :
    (fuel : ℕ) (c : UntrustedHashTransactionInputFinalize) (msgs : List (List ℕ)) (r : IsReady c)
    → c.sent_cuts + 1 < length c.cuts
    → transcript command fuel c ≡ ok msgs
    → msgs ≡ []
    → ⊥
unfolding transcript
nonempty zero c msgs r h e nil = cc
nonempty (suc fuel) c msgs r h e nil =
    let (rest, _, is) = transcript_more fuel c msgs r h e in cc (is ∙ nil)

-- For a command whose change path is sent and whose cuts are at most 254 bytes apart: if it ends,
-- the last APDU that it sends is marked by 0x80 in its third byte, and no other is.
pub transcript-IsMarked :
    (fuel : ℕ) (c : UntrustedHashTransactionInputFinalize) (msgs : List (List ℕ))
    → IsReady c
    → transcript command fuel c ≡ ok msgs
    → IsMarked msgs
unfolding transcript
transcript-IsMarked zero c msgs r e = cc
transcript-IsMarked (suc fuel) c msgs r e = elim (position c r) [
  | inl end ↦ subst IsMarked (transcript_end (suc fuel) c msgs r end e) tt
  | inr more ↦
      let x = encodes c r more in
      let (rest, is_rest, is) = transcript_more fuel c msgs r more e in
      let cuts : length x.after.cuts ≡ length c.cuts = ap length x.same_cuts in
      subst IsMarked is (elim (position x.after x.ready) [
        | inl end ↦
            let last : (x.after.sent_cuts == length c.cuts - 1) ≡ true = ground arith in
            let byte : get_or x.msg 2 0 ≡ 0x80 = third_byte c r more ∙ rw last refl in
            subst (λ ms. IsMarked (x.msg ∷ ms))
              (transcript_end fuel x.after rest x.ready end is_rest) byte
        | inr on ↦
            let last : (x.after.sent_cuts == length c.cuts - 1) ≡ false = ground arith in
            let byte : get_or x.msg 2 0 ≡ 0x00 = third_byte c r more ∙ rw last refl in
            prepend x.msg rest byte (nonempty fuel x.after rest x.ready on is_rest)
              (transcript-IsMarked fuel x.after rest x.ready is_rest)
      ])
]
