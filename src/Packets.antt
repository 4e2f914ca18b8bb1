-- ===== src/Packets.antt =====
-- src/dongle/message.rs: the part of `encode_next` that the three commands with cuts share, which
-- puts as many pieces of the serialisation as fit into one APDU.
pub mod Cuts
pub mod Fill
pub mod Seal
pub mod Whole
use icebox.Prelude.{
  ℕ, zero, suc, ◌+◌, ◌-◌, ◌%◌, ◌<◌, Bool, true, false, ltb, leb, ◌==◌, List, [], ◌∷◌, ◌++◌, length,
  set, if◌then◌else◌,
}
use icebox.Outcome.{
  Outcome, ok, panic, diverge, assert, checked_sub, index, index_range, ◌>>=◌, ◌>>◌,
}

-- `unreachable!()` behind the last cut, and otherwise whether all cuts but the last have been sent.
unfoldable pub all_sent : List ℕ → ℕ → Outcome Bool
all_sent cuts sent_cuts =
    if leb (length cuts) sent_cuts
    then panic
    else (do last ← checked_sub (length cuts) 1; ok (sent_cuts == last))

-- `cuts[sent_cuts + 1] - cuts[sent_cuts]`
unfoldable pub next_cut_len : List ℕ → ℕ → Outcome ℕ
next_cut_len cuts sent_cuts = do
  to ← index cuts (sent_cuts + 1)
  from ← index cuts sent_cuts
  checked_sub to from

-- `while ret.len() + next_cut_len < apdu_size`, on fuel. The state is `sent_cuts` and `ret`.
unfoldable pub fill_loop : ℕ → ℕ → List ℕ → List ℕ → ℕ → List ℕ → ℕ → Outcome (ℕ × List ℕ)
fill_loop zero apdu_size ser cuts sent_cuts ret next =
    if ltb (length ret + next) apdu_size then diverge else ok (sent_cuts, ret)
fill_loop (suc fuel) apdu_size ser cuts sent_cuts ret next =
    let more = (do
      from ← index cuts sent_cuts
      to ← index cuts (sent_cuts + 1)
      part ← index_range from to ser
      last ← checked_sub (length cuts) 1
      let again = (do
        next' ← next_cut_len cuts (sent_cuts + 1)
        fill_loop fuel apdu_size ser cuts (sent_cuts + 1) (ret ++ part) next')
      if ltb (sent_cuts + 1) last then again else ok (sent_cuts + 1, ret ++ part)) in
    if ltb (length ret + next) apdu_size then more else ok (sent_cuts, ret)

-- A round sends a cut, so the number of cuts is fuel enough.
unfoldable pub fill_packet : ℕ → List ℕ → List ℕ → ℕ → List ℕ → Outcome (ℕ × List ℕ)
fill_packet apdu_size ser cuts sent_cuts ret = do
  next ← next_cut_len cuts sent_cuts
  fill_loop (length cuts) apdu_size ser cuts sent_cuts ret next

-- `assert!(ret.len() < apdu_size); ret[4] = (ret.len() - 5) as u8;`
unfoldable pub seal : ℕ → List ℕ → Outcome (List ℕ)
seal apdu_size ret = do
  assert (ltb (length ret) apdu_size)
  body ← checked_sub (length ret) 5
  ok (set ret 4 (body % 256))
