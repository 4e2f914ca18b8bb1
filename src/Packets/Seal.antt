-- ===== src/Packets/Seal.antt =====
-- The header and the length byte of a filled APDU, and the test for the last cut.
use icebox.Packets.{leb, all_sent, seal}
use icebox.Prelude.{
  ℕ, ◌+◌, ◌-◌, ◌%◌, ◌<◌, ◌≡◌, true, false, List, ◌∷◌, length, arith, leb, ◌==◌, lt→ltb,
}
use icebox.Outcome.{ok, checked_sub_ok}

pub all_sent_end :
    (cuts : List ℕ) (sent : ℕ) → sent + 1 ≡ length cuts → all_sent cuts sent ≡ ok true
unfolding all_sent
all_sent_end cuts sent h =
    let inside : leb (length cuts) sent ≡ false = ground arith in
    let last : (sent == length cuts - 1) ≡ true = ground arith in
    rw (inside, checked_sub_ok (length cuts) 1 (omega arith), last)

pub all_sent_more :
    (cuts : List ℕ) (sent : ℕ) → sent + 1 < length cuts → all_sent cuts sent ≡ ok false
unfolding all_sent
all_sent_more cuts sent h =
    let inside : leb (length cuts) sent ≡ false = ground arith in
    let last : (sent == length cuts - 1) ≡ false = ground arith in
    rw (inside, checked_sub_ok (length cuts) 1 (omega arith), last)

-- An APDU below the limit: its fifth byte becomes the length of what follows, modulo 256.
pub seal_lem :
    (apdu_size a b c d e : ℕ) (body : List ℕ)
    → 5 + length body < apdu_size
    → seal apdu_size (a ∷ b ∷ c ∷ d ∷ e ∷ body) ≡ ok (a ∷ b ∷ c ∷ d ∷ (length body % 256) ∷ body)
unfolding seal
seal_lem apdu_size a b c d e body h =
    let n : ℕ = length (a ∷ b ∷ c ∷ d ∷ e ∷ body) in
    let size : n - 5 ≡ length body = omega arith in
    rw (lt→ltb n apdu_size (omega arith), checked_sub_ok n 5 (omega arith), size)
