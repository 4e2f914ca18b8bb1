-- ===== src/Packets/Fill.antt =====
-- Filling an APDU: it ends, it takes whole pieces in order, as many as fit, and one at least where
-- the next one fits.
use icebox.Prelude.{
  ap, ◌∙◌, ◌∷◌, slice-append, append_assoc, length-append, length-slice, append-nil, slice_empty, ℕ,
  zero, suc, ◌+◌, ◌-◌, ◌≤◌, ◌<◌, ◌≡◌, ◌⊎◌, inl, inr, refl, List, ◌++◌, length, get_or, slice, arith,
  ltb, Bool-cases, ltb→lt, ltb→ge, lt→ltb, ge→ltb,
}
use icebox.Outcome.{Outcome, ok, index_ok, index_range_ok, checked_sub_ok}
use icebox.Cutpoints.Gaps.{IsCut}
use icebox.Packets.{next_cut_len, fill_loop, fill_packet}
use icebox.Packets.Cuts.{cut_step, cut_inside}

-- The position of a cut.
abbrev pub cut : List ℕ → ℕ → ℕ
cut cuts i = get_or cuts i 0

-- What filling leaves: `sent` cuts are sent and the APDU is `ret`.
pub record Filled (apdu_size : ℕ) (ser cuts : List ℕ) (old : ℕ) (header : List ℕ)
    (o : Outcome (ℕ × List ℕ)) : Type 0 where
  pub sent : ℕ
  pub ret : List ℕ
  pub succeeds : o ≡ ok (sent, ret)
  pub takes : ret ≡ header ++ slice (cut cuts old) (cut cuts sent) ser
  pub forward : old ≤ sent
  pub ordered : cut cuts old ≤ cut cuts sent
  pub inside : sent < length cuts
  pub fits : length header < apdu_size → length ret < apdu_size
  pub moves : length header + (cut cuts (old + 1) - cut cuts old) < apdu_size → old < sent
  pub greedy :
      (sent + 1 ≡ length cuts) ⊎ (apdu_size ≤ length ret + (cut cuts (sent + 1) - cut cuts sent))

module _ (m apdu_size : ℕ) (ser cuts : List ℕ) (c : IsCut m ser cuts) where
  next_cut_len_lem :
      (sent : ℕ)
      → sent + 1 < length cuts
      → next_cut_len cuts sent ≡ ok (cut cuts (sent + 1) - cut cuts sent)
  unfolding next_cut_len
  next_cut_len_lem sent h = rw (
    index_ok cuts (sent + 1) 0 h,
    index_ok cuts sent 0 (omega arith),
    checked_sub_ok (cut cuts (sent + 1)) (cut cuts sent) (cut_step m c sent h).0,
  )

  -- One round, in which the next piece fits: behind it are more pieces, or none.
  part : ℕ → List ℕ
  part sent = slice (cut cuts sent) (cut cuts (sent + 1)) ser

  fill_loop_more :
      (fuel sent : ℕ) (ret : List ℕ)
      → sent + 2 < length cuts
      → length ret + (cut cuts (sent + 1) - cut cuts sent) < apdu_size
      → fill_loop (suc fuel) apdu_size ser cuts sent ret (cut cuts (sent + 1) - cut cuts sent)
        ≡ fill_loop fuel apdu_size ser cuts
            (sent + 1)
            (ret ++ part sent)
            (cut cuts (sent + 1 + 1) - cut cuts (sent + 1))
  unfolding fill_loop part
  fill_loop_more fuel sent ret h room = rw (
    lt→ltb _ apdu_size room,
    index_ok cuts sent 0 (omega arith),
    index_ok cuts (sent + 1) 0 (omega arith),
    index_range_ok _ _ ser (cut_step m c sent (omega arith)).0
        (cut_inside m c (sent + 1) (omega arith)),
    checked_sub_ok (length cuts) 1 (omega arith),
    lt→ltb (sent + 1) (length cuts - 1) (omega arith),
    next_cut_len_lem (sent + 1) (omega arith),
  )

  fill_loop_last :
      (fuel sent : ℕ) (ret : List ℕ)
      → sent + 2 ≡ length cuts
      → length ret + (cut cuts (sent + 1) - cut cuts sent) < apdu_size
      → fill_loop (suc fuel) apdu_size ser cuts sent ret (cut cuts (sent + 1) - cut cuts sent)
        ≡ ok (sent + 1, ret ++ part sent)
  unfolding fill_loop part
  fill_loop_last fuel sent ret h room = rw (
    lt→ltb _ apdu_size room,
    index_ok cuts sent 0 (omega arith),
    index_ok cuts (sent + 1) 0 (omega arith),
    index_range_ok _ _ ser (cut_step m c sent (omega arith)).0
        (cut_inside m c (sent + 1) (omega arith)),
    checked_sub_ok (length cuts) 1 (omega arith),
    ge→ltb (sent + 1) (length cuts - 1) (omega arith),
  )

  length-part :
      (sent : ℕ) → sent + 1 < length cuts → length (part sent) ≡ cut cuts (sent + 1) - cut cuts sent
  unfolding part
  length-part sent h = length-slice _ _ ser (cut_step m c sent h).0 (cut_inside m c (sent + 1) h)

  -- The next piece does not fit.
  full_packet :
      (fuel sent : ℕ) (ret : List ℕ)
      → sent + 1 < length cuts
      → apdu_size ≤ length ret + (cut cuts (sent + 1) - cut cuts sent)
      → Filled apdu_size ser cuts sent ret
          (fill_loop (suc fuel) apdu_size ser cuts sent ret (cut cuts (sent + 1) - cut cuts sent))
  unfolding fill_loop
  full_packet fuel sent ret h full = record {
    sent = sent;
    ret = ret;
    succeeds = rw (ge→ltb _ apdu_size full);
    takes = rw (slice_empty, append-nil);
    forward = omega arith;
    ordered = omega arith;
    inside = omega arith;
    fits = λ p. p;
    moves = λ p. absurd (omega arith);
    greedy = inr full;
  }

  last_part :
      (fuel sent : ℕ) (ret : List ℕ)
      → sent + 2 ≡ length cuts
      → length ret + (cut cuts (sent + 1) - cut cuts sent) < apdu_size
      → Filled apdu_size ser cuts sent ret
          (fill_loop (suc fuel) apdu_size ser cuts sent ret (cut cuts (sent + 1) - cut cuts sent))
  unfolding part
  last_part fuel sent ret h room = record {
    sent = sent + 1;
    ret = ret ++ part sent;
    succeeds = fill_loop_last fuel sent ret h room;
    takes = refl;
    forward = omega arith;
    ordered = (cut_step m c sent (omega arith)).0;
    inside = omega arith;
    fits = λ p. omega (arith, length-append ret (part sent), length-part sent (omega arith));
    moves = λ p. omega arith;
    greedy = inl (omega arith);
  }

  -- A piece, and then what the rest of the loop takes.
  add_part :
      (sent : ℕ) (ret : List ℕ) (o : Outcome (ℕ × List ℕ))
      → sent + 1 < length cuts
      → length ret + (cut cuts (sent + 1) - cut cuts sent) < apdu_size
      → Filled apdu_size ser cuts (sent + 1) (ret ++ part sent) o
      → Filled apdu_size ser cuts sent ret o
  unfolding part
  add_part sent ret o h room x = record {
    sent = x.sent;
    ret = x.ret;
    succeeds = x.succeeds;
    takes = rw (
      x.takes,
      append_assoc,
      slice-append (cut cuts sent) (cut cuts (sent + 1)) (cut cuts x.sent) ser
          (cut_step m c sent h).0 x.ordered,
    );
    forward = omega (arith, x.forward);
    ordered = omega (arith, x.ordered, (cut_step m c sent h).0);
    inside = x.inside;
    fits = λ p. x.fits (omega (arith, length-append ret (part sent), length-part sent h));
    moves = λ p. omega (arith, x.forward);
    greedy = x.greedy;
  }

  fill_loop_lem :
      (fuel sent : ℕ) (ret : List ℕ)
      → sent + 1 < length cuts
      → length cuts ≤ sent + fuel
      → Filled apdu_size ser cuts sent ret
          (fill_loop fuel apdu_size ser cuts sent ret (cut cuts (sent + 1) - cut cuts sent))
  unfolding part
  fill_loop_lem zero sent ret h hf = absurd (omega arith)
  fill_loop_lem (suc fuel) sent ret h hf =
      let next : ℕ = cut cuts (sent + 1) - cut cuts sent in
      elim (Bool-cases (ltb (length ret + next) apdu_size)) [
        | inr full ↦ full_packet fuel sent ret h (ltb→ge _ _ full)
        | inl room ↦ elim (Bool-cases (ltb (sent + 2) (length cuts))) [
          | inl more ↦
              let more' : sent + 2 < length cuts = ltb→lt _ _ more in
              let room' : length ret + next < apdu_size = ltb→lt _ _ room in
              rw (fill_loop_more fuel sent ret more' room') (
                add_part sent ret _ h room'
                  (fill_loop_lem fuel (sent + 1) (ret ++ part sent) (omega arith) (omega arith)))
          | inr end ↦ last_part fuel sent ret (omega (arith, ltb→ge _ _ end)) (ltb→lt _ _ room)
        ]
      ]

  -- For cuts that are in order and reach the end, from any cut but the last: filling an APDU
  -- ends, and puts behind the header the bytes from that cut to a cut at or behind it. It stops
  -- at the last cut or where the next piece would reach `apdu_size`; it keeps below `apdu_size`
  -- if the header is below it, and takes a piece at least if the first one fits.
  pub fill_packet_lem :
      (sent : ℕ) (header : List ℕ)
      → sent + 1 < length cuts
      → Filled apdu_size ser cuts sent header (fill_packet apdu_size ser cuts sent header)
  unfolding fill_packet
  fill_packet_lem sent header h =
      rw (next_cut_len_lem sent h) (fill_loop_lem (length cuts) sent header h (omega arith))

  fill_loop_full :
      (fuel sent : ℕ) (ret : List ℕ) (next : ℕ)
      → apdu_size ≤ length ret + next
      → fill_loop fuel apdu_size ser cuts sent ret next ≡ ok (sent, ret)
  unfolding fill_loop
  fill_loop_full zero sent ret next full = rw (ge→ltb (length ret + next) apdu_size full)
  fill_loop_full (suc fuel) sent ret next full = rw (ge→ltb (length ret + next) apdu_size full)

  -- If the next piece does not fit behind the header, nothing is taken.
  pub fill_packet_none :
      (sent : ℕ) (header : List ℕ)
      → sent + 1 < length cuts
      → apdu_size ≤ length header + (cut cuts (sent + 1) - cut cuts sent)
      → fill_packet apdu_size ser cuts sent header ≡ ok (sent, header)
  unfolding fill_packet
  fill_packet_none sent header h full =
      rw (next_cut_len_lem sent h) (fill_loop_full (length cuts) sent header _ full)

  -- An APDU whose header has five bytes, with the bytes `front` behind them.
  pub record Packet (sent a b p1 p2 : ℕ) (front : List ℕ) : Type 0 where
    pub to : ℕ
    pub filled :
        fill_packet apdu_size ser cuts sent (a ∷ b ∷ p1 ∷ p2 ∷ 0 ∷ front)
        ≡ ok (to, a ∷ b ∷ p1 ∷ p2 ∷ 0 ∷ (front ++ slice (cut cuts sent) (cut cuts to) ser))
    pub moves : sent < to
    pub inside : to < length cuts
    pub ordered : cut cuts sent ≤ cut cuts to
    pub size : 5 + length (front ++ slice (cut cuts sent) (cut cuts to) ser) < apdu_size

  pub packet_lem :
      (sent a b p1 p2 : ℕ) (front : List ℕ)
      → sent + 1 < length cuts
      → 5 + length front + (cut cuts (sent + 1) - cut cuts sent) < apdu_size
      → Packet sent a b p1 p2 front
  packet_lem sent a b p1 p2 front h room =
      let header : List ℕ = a ∷ b ∷ p1 ∷ p2 ∷ 0 ∷ front in
      let x = fill_packet_lem sent header h in
      record {
        to = x.sent;
        filled = x.succeeds ∙ ap (λ t. ok (x.sent, t)) x.takes;
        moves = x.moves (omega arith);
        inside = x.inside;
        ordered = x.ordered;
        size = omega (arith, x.fits (omega arith), ap length x.takes);
      }
