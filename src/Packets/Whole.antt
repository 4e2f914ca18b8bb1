-- ===== src/Packets/Whole.antt =====
-- The commands with cuts: what they have in common, and the APDUs that such a command sends.
use icebox.Prelude.{
  take_all, slice_empty, slice-append, ◌∙◌, ℕ, zero, suc, ◌+◌, ◌-◌, ◌≤◌, ◌<◌, ◌≡◌, ◌⊎◌, inl, inr,
  ap, none, some, List, [], ◌∷◌, length, get_or, slice, arith, All,
}
use icebox.Packets.Cuts.{cut_first, cut_last, cut_inside}
use icebox.Outcome.{ok, Returns}
use icebox.Constants.{max_apdu_size}
use icebox.Command.{Command}
use icebox.Command.Exchange.{Encoded, Progresses}
use icebox.Command.Transcript.{transcript}
use icebox.Cutpoints.Gaps.{IsCut}
use icebox.Cutpoints.Whole.{concat_map}
use icebox.Packets.Fill.{cut}

-- An APDU of less than 260 bytes, whose fifth byte is the number of the bytes behind it.
abbrev pub IsApdu : List ℕ → Type 0
IsApdu msg = (length msg < max_apdu_size) × (get_or msg 4 0 + 5 ≡ length msg)

-- A sent APDU, and the state behind it.
pub record Sent {C : Type 0} (cmd : Command C) (Ready : C → Type 0) (ser cuts : C → List ℕ)
    (sent_cuts : C → ℕ) (payload : List ℕ → List ℕ) (c : C) : Type 0 where
  pub msg : List ℕ
  pub after : C
  pub encoded : cmd.encode_next max_apdu_size c ≡ ok (some msg, after)
  pub moves : sent_cuts c < sent_cuts after
  pub same_ser : ser after ≡ ser c
  pub same_cuts : cuts after ≡ cuts c
  pub ready : Ready after
  pub ordered : cut (cuts c) (sent_cuts c) ≤ cut (cuts c) (sent_cuts after)
  pub carries :
      payload msg ≡ slice (cut (cuts c) (sent_cuts c)) (cut (cuts c) (sent_cuts after)) (ser c)
  pub nonempty : 0 < length msg
  pub whole : IsApdu msg

-- `Ready` is the invariant; `payload` is the part of an APDU that belongs to the serialisation.
pub record CutCommand {C : Type 0} (cmd : Command C) (Ready : C → Type 0) : Type 0 where
  pub ser : C → List ℕ
  pub cuts : C → List ℕ
  pub sent_cuts : C → ℕ
  pub payload : List ℕ → List ℕ
  pub max_size : ℕ
  pub is_cut : (c : C) → Ready c → IsCut max_size (ser c) (cuts c)
  pub inside : (c : C) → Ready c → sent_cuts c < length (cuts c)
  pub encodes_end :
      (c : C)
      → Ready c
      → sent_cuts c + 1 ≡ length (cuts c)
      → cmd.encode_next max_apdu_size c ≡ ok (none, c)
  pub encodes :
      (c : C)
      → Ready c
      → sent_cuts c + 1 < length (cuts c)
      → Sent cmd Ready ser cuts sent_cuts payload c
  pub decode_returns : (c : C) (reply : List ℕ) → Returns (cmd.decode_reply reply c).0
  pub decode_keeps : (c : C) (reply : List ℕ) → Ready c → Ready (cmd.decode_reply reply c).1
  pub sent-decode : (c : C) (reply : List ℕ) → sent_cuts (cmd.decode_reply reply c).1 ≡ sent_cuts c
  pub cuts-decode : (c : C) (reply : List ℕ) → cuts (cmd.decode_reply reply c).1 ≡ cuts c

module _ {C : Type 0} {cmd : Command C} {Ready : C → Type 0} (k : CutCommand cmd Ready) where
  -- The cuts that are left.
  abbrev pub left : C → ℕ
  left c = length (k.cuts c) - 1 - k.sent_cuts c

  position :
      (c : C)
      → Ready c
      → (k.sent_cuts c + 1 ≡ length (k.cuts c)) ⊎ (k.sent_cuts c + 1 < length (k.cuts c))
  position c r = omega (arith, k.inside c r)

  Encoded-left : (c : C) → Ready c → Encoded cmd Ready left c (cmd.encode_next max_apdu_size c)
  Encoded-left c r = elim (position c r) [
    | inl end ↦ rw (k.encodes_end c r end) tt
    | inr more ↦
        let x = k.encodes c r more in
        rw x.encoded (
          x.nonempty,
          omega (arith, x.whole.0),
          x.ready,
          rw x.same_cuts (omega (arith, x.moves, k.inside x.after x.ready, ap length x.same_cuts)),
        )
  ]

  pub CutCommand-Progresses : Progresses cmd Ready left
  CutCommand-Progresses = record {
    encodes = Encoded-left;
    decodes = λ c reply r. k.decode_returns c reply;
    keeps = λ c reply r. k.decode_keeps c reply r;
    shrinks = λ c reply r. rw (k.sent-decode c reply, k.cuts-decode c reply) (omega arith);
  }

  -- What a command sends from a state on, if all is well.
  pub record Sends (fuel : ℕ) (c : C) : Type 0 where
    pub msgs : List (List ℕ)
    pub sent : transcript cmd fuel c ≡ ok msgs
    pub carried :
        concat_map k.payload msgs
        ≡ slice (cut (k.cuts c) (k.sent_cuts c)) (length (k.ser c)) (k.ser c)
    pub apdus : All IsApdu msgs

  Sends-end :
      (fuel : ℕ) (c : C) → Ready c → k.sent_cuts c + 1 ≡ length (k.cuts c) → Sends (suc fuel) c
  unfolding transcript
  Sends-end fuel c r end = record {
    msgs = [];
    sent = rw (k.encodes_end c r end);
    carried =
        let last : cut (k.cuts c) (k.sent_cuts c) ≡ length (k.ser c) =
          cut_last k.max_size (k.is_cut c r) (k.sent_cuts c) end in
        rw (last, slice_empty);
    apdus = tt;
  }

  Sends-more :
      (fuel : ℕ) (c : C) (r : Ready c) (x : Sent cmd Ready k.ser k.cuts k.sent_cuts k.payload c)
      → Sends fuel x.after
      → Sends (suc fuel) c
  unfolding transcript
  Sends-more fuel c r x y =
      let to = k.sent_cuts x.after in
      let inside : to < length (k.cuts c) = rw (← x.same_cuts) (k.inside x.after x.ready) in
      let rest : concat_map k.payload y.msgs
          ≡ slice (cut (k.cuts c) to) (length (k.ser c)) (k.ser c) =
        y.carried ∙ rw (x.same_ser, x.same_cuts) in
      record {
        msgs = x.msg ∷ y.msgs;
        sent = rw (x.encoded, y.sent);
        carried =
            rw (x.carries, rest)
              (slice-append (cut (k.cuts c) (k.sent_cuts c)) (cut (k.cuts c) to) (length (k.ser c))
                (k.ser c) x.ordered (cut_inside k.max_size (k.is_cut c r) to inside));
        apdus = (x.whole, y.apdus);
      }

  -- With fuel for the cuts that are left, the APDUs carry the rest of the serialisation, in order.
  pub sends : (fuel : ℕ) (c : C) → Ready c → left c < fuel → Sends fuel c
  sends zero c r h = absurd (omega arith)
  sends (suc fuel) c r h = elim (position c r) [
    | inl end ↦ Sends-end fuel c r end
    | inr more ↦
        let x = k.encodes c r more in
        Sends-more fuel c r x (sends fuel x.after x.ready (rw x.same_cuts (omega (arith, x.moves))))
  ]

  -- A ready command that has sent nothing sends the whole serialisation, and ends.
  pub send_whole :
      (fuel : ℕ) (c : C)
      → Ready c
      → k.sent_cuts c ≡ 0
      → length (k.cuts c) ≤ fuel
      → (msgs : List (List ℕ)) × (transcript cmd fuel c ≡ ok msgs)
        × (concat_map k.payload msgs ≡ k.ser c)
        × All IsApdu msgs
  send_whole fuel c r unsent enough =
      let x = sends fuel c r (omega (arith, k.inside c r)) in
      let first : cut (k.cuts c) (k.sent_cuts c) ≡ 0 =
        rw unsent (cut_first k.max_size (k.is_cut c r)).1 in
      (
        x.msgs,
        x.sent,
        x.carried ∙ rw first (take_all (length (k.ser c) - 0) (k.ser c) (omega arith)),
        x.apdus,
      )
