-- ===== src/Command/Exchange.antt =====
-- `exchange` ends, and what it returns for a command of one APDU.
use icebox.Prelude.{ℕ, zero, suc, ◌≤◌, ◌<◌, ◌≡◌, Option, none, some, List, length, arith, subst}
use icebox.Outcome.{Outcome, ok, err, panic, diverge, Returns}
use icebox.Constants.{max_apdu_size}
use icebox.Io.{Hid, continue-Returns}
use icebox.Transport.Apdu.{write_apdu, read_apdu}
use icebox.Transport.Delivery.{
  ReadsBytes, read_apdu-Returns, write_apdu-Returns, Accepts, Delivers, apdu_frames, write_apdu_lem,
  read_apdu_lem,
}
use icebox.Command.{Command, exchange, exchange_round}

module _ {C : Type 0} (cmd : Command C) (Inv : C → Type 0) (measure : C → ℕ) where
  -- What `encode_next` may answer: the end, or an APDU of 1 to 260 bytes in a smaller state.
  abbrev pub Encoded : C → Outcome (Option (List ℕ) × C) → Type 0
  Encoded c (ok (none, c')) = Unit
  Encoded c (ok (some msg, c')) =
      (0 < length msg) × (length msg ≤ max_apdu_size) × Inv c' × (measure c' < measure c)
  Encoded c (err e) = ⊥
  Encoded c panic = ⊥
  Encoded c diverge = ⊥

  -- The invariant is kept, and every APDU brings the command nearer to its end.
  pub record Progresses : Type 0 where
    pub encodes : (c : C) → Inv c → Encoded c (cmd.encode_next max_apdu_size c)
    pub decodes : (c : C) (reply : List ℕ) → Inv c → Returns (cmd.decode_reply reply c).0
    pub keeps : (c : C) (reply : List ℕ) → Inv c → Inv (cmd.decode_reply reply c).1
    pub shrinks :
        (c : C) (reply : List ℕ) → Inv c → measure (cmd.decode_reply reply c).1 ≤ measure c

module _ {H C : Type 0} (hid : Hid H) (cmd : Command C) (Inv : C → Type 0) (measure : C → ℕ) where
  Encoded-Returns :
      (c : C) (o : Outcome (Option (List ℕ) × C)) → Encoded cmd Inv measure c o → Returns o
  Encoded-Returns c (ok x) e = tt
  Encoded-Returns c (err x) e = tt
  Encoded-Returns c panic e = e
  Encoded-Returns c diverge e = e

  -- One round, given that the rest of the loop returns.
  round-Returns :
      ReadsBytes hid
      → Progresses cmd Inv measure
      → (fuel : ℕ) (c : C) (next : Option (List ℕ)) (c' : C) (h : H)
      → Encoded cmd Inv measure c (ok (next, c'))
      → ((d : C) (h' : H) → Inv d → measure d < measure c → Returns (exchange hid cmd fuel d h').0)
      → Returns (exchange_round hid cmd (exchange hid cmd fuel) next c' h).0
  unfolding exchange_round
  round-Returns bytes p fuel c none c' h e rest = tt
  round-Returns bytes p fuel c (some msg) c' h e rest =
      continue-Returns (write_apdu hid msg h).0 _ _ (write_apdu-Returns hid msg h e.0 (omega arith))
        λ sent _.
          continue-Returns (read_apdu hid (write_apdu hid msg h).1).0 _ _
            (read_apdu-Returns hid bytes (write_apdu hid msg h).1)
            λ reply _.
              continue-Returns (cmd.decode_reply reply c').0 _ _ (p.decodes c' reply e.2)
                λ decoded _.
                  rest (cmd.decode_reply reply c').1 _ (p.keeps c' reply e.2)
                    (omega (arith, p.shrinks c' reply e.2))

  -- For every command that keeps an invariant, and whose every APDU has 1 to 260 bytes and lowers
  -- a measure (Progresses), on a device that hands out bytes: with more fuel than the measure,
  -- `exchange` ends with a reply or an error, never in a panic or an endless loop.
  pub exchange-Returns :
      ReadsBytes hid
      → Progresses cmd Inv measure
      → (fuel : ℕ) (c : C) (h : H) → Inv c
      → measure c < fuel
      → Returns (exchange hid cmd fuel c h).0
  unfolding exchange
  exchange-Returns bytes p zero c h inv m = absurd (omega arith)
  exchange-Returns bytes p (suc fuel) c h inv m =
      let o = cmd.encode_next max_apdu_size c in
      let encoded : Encoded cmd Inv measure c o = p.encodes c inv in
      continue-Returns o _ _ (Encoded-Returns c o encoded) λ x is.
        round-Returns bytes p fuel c x.0 x.1 h (subst (Encoded cmd Inv measure c) is encoded)
          λ d h' inv' m'. exchange-Returns bytes p fuel d h' inv' (omega arith)

module _ {H C : Type 0} (hid : Hid H) (cmd : Command C) where
  -- One APDU and its reply, on a device that takes the frames of the one and hands out the frames
  -- of the other, is one round of `exchange`.
  pub exchange_step :
      (fuel : ℕ) (c c' c'' : C) (msg reply : List ℕ) (h h1 h2 : H)
      → cmd.encode_next max_apdu_size c ≡ ok (some msg, c')
      → 0 < length msg
      → length msg < 0x1000
      → 0 < length reply
      → length reply < 0x10000
      → Accepts hid (apdu_frames msg) h h1
      → Delivers hid (apdu_frames reply) h1 h2
      → cmd.decode_reply reply c' ≡ (ok tt, c'')
      → exchange hid cmd (suc fuel) c h ≡ exchange hid cmd fuel c'' h2
  unfolding exchange
  exchange_step fuel c c' c'' msg reply h h1 h2 e m0 m1 r0 r1 sent got decoded =
      rw (
        e,
        write_apdu_lem hid msg h h1 m0 m1 sent,
        read_apdu_lem hid reply h1 h2 r0 r1 got,
        decoded,
      )

  pub exchange_end :
      (fuel : ℕ) (c c' : C) (h : H)
      → cmd.encode_next max_apdu_size c ≡ ok (none, c')
      → exchange hid cmd (suc fuel) c h ≡ (ok (cmd.into_reply c'), h)
  unfolding exchange
  exchange_end fuel c c' h e = rw e
