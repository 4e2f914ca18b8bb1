-- ===== src/Cutpoints/First.antt =====
-- The first piece of an encoding: where it is at most `max_size` bytes long, the first cut behind 0
-- is at its end.
use icebox.Outcome.{ok_value, Outcome, ok, ◌>>=◌}
use icebox.Prelude.{
  ℕ, zero, suc, ◌+◌, ◌≤◌, ◌<◌, ◌≡◌, refl, sym, ◌∙◌, true, ge→ltb, List, [], ◌∷◌, ◌++◌, length,
  get_or, arith,
}
use icebox.Cutpoints.{Encoding, start, cut_loop, encode_marking_cutpoints}
use icebox.Cutpoints.Gaps.{Cut, Ended, Marks, mark-Marks, Marks-bind}

cut_loop_none :
    (fuel len last m : ℕ) (cuts : List ℕ) → len ≤ last + m → cut_loop fuel len last m cuts ≡ ok cuts
unfolding cut_loop
cut_loop_none zero len last m cuts h = rw (ge→ltb (last + m) len h)
cut_loop_none (suc fuel) len last m cuts h = rw (ge→ltb (last + m) len h)

abbrev opened_at : List ℕ → Encoding
opened_at b = record { buf = b; cuts = 0 ∷ length b ∷ [] }

mark_start :
    (m : ℕ) (b : List ℕ) → length b ≤ m → encode_marking_cutpoints b m start ≡ ok (opened_at b)
unfolding encode_marking_cutpoints icebox.Message.Status.pop
mark_start m b h = rw (cut_loop_none (length b) (length b) 0 m (0 ∷ []) (omega arith))

-- An encoder whose first piece is `b1`.
pub record Opens (m : ℕ) (b1 b2 : List ℕ) (o : Outcome Encoding) : Type 0 where
  pub marks : Marks m true (b1 ++ b2) start o
  pub first : (e : Encoding) → o ≡ ok e → length b1 ≤ m → get_or e.cuts 1 0 ≡ length b1

module _ (m : ℕ) (pos : 0 < m) (b1 : List ℕ) {b2 : List ℕ} (f : Encoding → Outcome Encoding)
    (c : Cut m start) (k : (t : Encoding) → Cut m t → Ended t → Marks m true b2 t (f t)) where
  first_cut :
      (e : Encoding)
      → (encode_marking_cutpoints b1 m start >>= f) ≡ ok e
      → length b1 ≤ m
      → get_or e.cuts 1 0 ≡ length b1
  first_cut e is small =
      let cut : Cut m (opened_at b1) = record {
        rest = length b1 ∷ [];
        starts = refl;
        gaps = (omega arith, omega arith, tt);
        inside = omega arith;
      } in
      let x = k (opened_at b1) cut (0 ∷ [], refl) in
      let body : f (opened_at b1) ≡ ok e = rw (← is, mark_start m b1 small) in
      let same : e ≡ x.after = ok_value (sym body ∙ x.succeeds) in rw (same, x.extends.1)

  pub opens : Opens m b1 b2 (encode_marking_cutpoints b1 m start >>= f)
  opens = record {
    marks = Marks-bind (mark-Marks m b1 start pos c) (λ t ct et. k t ct (et refl));
    first = first_cut;
  }
