-- ===== src/Cutpoints/Gaps.antt =====
-- Cut points in order, with gaps of at most `max_size`: the invariant of every encoder, kept by
-- one `encode_marking_cutpoints` and by the `pop` that may follow it.
use icebox.Prelude.{
  append-nil, append_assoc, ge→ltb, ◌∙◌, ℕ, zero, suc, ◌+◌, ◌≤◌, ◌<◌, ◌≡◌, refl, ap, sym, Bool,
  true, false, Bool-cases, inl, inr, ltb, ltb→lt, ltb→ge, List, [], ◌∷◌, ◌++◌, some, length, arith,
  length-append,
}
use icebox.Outcome.{Outcome, ok, ◌>>=◌}
use icebox.Message.Status.{pop, pop-append}
use icebox.Cutpoints.{Encoding, cut_loop, encode_marking_cutpoints, pop_cut}

-- Each cut lies at or behind the one before it, at most `max_size` bytes on.
abbrev pub Gaps : ℕ → ℕ → List ℕ → Type 0
Gaps max_size a [] = Unit
Gaps max_size a (b ∷ r) = (a ≤ b) × (b ≤ a + max_size) × Gaps max_size b r

abbrev pub last_or : ℕ → List ℕ → ℕ
last_or a [] = a
last_or a (b ∷ r) = last_or b r

abbrev init : ℕ → List ℕ → List ℕ
init a [] = []
init a (b ∷ r) = a ∷ init b r

pop_last : (a : ℕ) (r : List ℕ) → pop (a ∷ r) ≡ some (last_or a r, init a r)
unfolding pop
pop_last a [] = refl
pop_last a (b ∷ r) = rw (pop_last b r)

pub last_or-snoc : (a x : ℕ) (r : List ℕ) → last_or a (r ++ x ∷ []) ≡ x
last_or-snoc a x [] = refl
last_or-snoc a x (b ∷ r) = last_or-snoc b x r

pub Gaps-snoc :
    (m a x : ℕ) (r : List ℕ)
    → Gaps m a r
    → last_or a r ≤ x
    → x ≤ last_or a r + m
    → Gaps m a (r ++ x ∷ [])
Gaps-snoc m a x [] g lo hi = (lo, hi, tt)
Gaps-snoc m a x (b ∷ r) g lo hi = (g.0, g.1, Gaps-snoc m b x r g.2 lo hi)

cut_loop_lem :
    (fuel len last m a : ℕ) (r : List ℕ)
    → 0 < m
    → last ≡ last_or a r
    → last ≤ len
    → len ≤ last + fuel
    → Gaps m a r
    → (r' : List ℕ) × (cut_loop fuel len last m (a ∷ r) ≡ ok (a ∷ r'))
      × ((more : List ℕ) × (r' ≡ r ++ more))
      × Gaps m a r'
      × (last_or a r' ≤ len)
      × (len ≤ last_or a r' + m)
unfolding cut_loop
cut_loop_lem zero len last m a r pos e lo hi g = (
  r,
  rw (ge→ltb (last + m) len (omega arith)),
  ([], sym (append-nil r)),
  g,
  omega arith,
  omega arith,
)
cut_loop_lem (suc fuel) len last m a r pos e lo hi g = elim (Bool-cases (ltb (last + m) len)) [
  | inl more ↦
      let (r', is, (more', ext), g', lo', hi') =
        cut_loop_lem fuel len (last + m) m a (r ++ (last + m) ∷ []) pos
          (sym (last_or-snoc a (last + m) r)) (omega (arith, ltb→lt _ _ more)) (omega arith)
          (Gaps-snoc m a (last + m) r g (omega arith) (omega arith)) in
      (
        r',
        rw (more, is),
        ((last + m) ∷ more', ext ∙ append_assoc r ((last + m) ∷ []) more'),
        g',
        lo',
        hi',
      )
  | inr done ↦
      (r, rw done, ([], sym (append-nil r)), g, omega arith, omega (arith, ltb→ge _ _ done))
]

-- The cuts of an encoding, the first at 0, none behind the end.
pub record Cut (m : ℕ) (s : Encoding) : Type 0 where
  pub rest : List ℕ
  pub starts : s.cuts ≡ 0 ∷ rest
  pub gaps : Gaps m 0 rest
  pub inside : last_or 0 rest ≤ length s.buf

-- The last cut is at the end.
abbrev pub Ended : Encoding → Type 0
Ended s = (r : List ℕ) × (s.cuts ≡ r ++ length s.buf ∷ [])

-- What a piece of an encoder does: it succeeds, keeps the cuts in order, and appends its bytes. If
-- `ends` is true, its last cut is at the end of the buffer.
pub record Marks (m : ℕ) (ends : Bool) (bytes : List ℕ) (s : Encoding) (o : Outcome Encoding)
    : Type 0 where
  pub after : Encoding
  pub succeeds : o ≡ ok after
  pub cut : Cut m after
  pub ended : ends ≡ true → Ended after
  pub writes : after.buf ≡ s.buf ++ bytes
  pub extends : (more : List ℕ) × (after.cuts ≡ s.cuts ++ more)

-- One primitive, in a state whose cuts are in order.
pub mark-Marks :
    (m : ℕ) (bytes : List ℕ) (s : Encoding)
    → 0 < m
    → Cut m s
    → Marks m true bytes s (encode_marking_cutpoints bytes m s)
unfolding encode_marking_cutpoints
mark-Marks m bytes s pos c =
    let buf : List ℕ = s.buf ++ bytes in
    let size : length buf ≡ length s.buf + length bytes = length-append s.buf bytes in
    let (r, is, ext, gaps, lo, hi) =
      cut_loop_lem (length buf) (length buf) (last_or 0 c.rest) m 0 c.rest pos refl
        (omega (arith, c.inside)) (omega arith) c.gaps in
    record {
      after = record { buf = buf; cuts = 0 ∷ (r ++ length buf ∷ []) };
      succeeds = rw (c.starts, pop_last, is);
      cut = record {
        rest = r ++ length buf ∷ [];
        starts = refl;
        gaps = Gaps-snoc m 0 (length buf) r gaps lo hi;
        inside = rw last_or-snoc (omega arith);
      };
      ended = λ _. (0 ∷ r, refl);
      writes = refl;
      extends = (ext.0 ++ length buf ∷ [], rw (c.starts, ext.1, append_assoc));
    }

-- One primitive after which a cut is not allowed.
pub mark_pop-Marks :
    (m : ℕ) (bytes : List ℕ) (s : Encoding)
    → 0 < m
    → Cut m s
    → Marks m false bytes s (encode_marking_cutpoints bytes m s >>= pop_cut)
unfolding encode_marking_cutpoints pop_cut
mark_pop-Marks m bytes s pos c =
    let buf : List ℕ = s.buf ++ bytes in
    let size : length buf ≡ length s.buf + length bytes = length-append s.buf bytes in
    let (r, is, ext, gaps, lo, hi) =
      cut_loop_lem (length buf) (length buf) (last_or 0 c.rest) m 0 c.rest pos refl
        (omega (arith, c.inside)) (omega arith) c.gaps in
    record {
      after = record { buf = buf; cuts = 0 ∷ r };
      succeeds = rw (c.starts, pop_last, is, pop-append (0 ∷ r) (length buf));
      cut = record { rest = r; starts = refl; gaps = gaps; inside = lo };
      ended = λ e. cc;
      writes = refl;
      extends = (ext.0, rw (c.starts, ext.1));
    }

-- Two pieces one after the other.
pub Marks-bind :
    {m : ℕ} {e1 e2 : Bool} {b1 b2 : List ℕ} {s : Encoding} {o : Outcome Encoding}
    {f : Encoding → Outcome Encoding}
    → Marks m e1 b1 s o
    → ((t : Encoding) → Cut m t → (e1 ≡ true → Ended t) → Marks m e2 b2 t (f t))
    → Marks m e2 (b1 ++ b2) s (o >>= f)
Marks-bind {b1} {b2} {s} {o} {f} x k =
    let y = k x.after x.cut x.ended in
    record {
      after = y.after;
      succeeds = rw x.succeeds y.succeeds;
      cut = y.cut;
      ended = y.ended;
      writes = y.writes ∙ rw x.writes (append_assoc s.buf b1 b2);
      extends = (
        x.extends.0 ++ y.extends.0,
        y.extends.1 ∙ rw x.extends.1 (append_assoc s.cuts x.extends.0 y.extends.0),
      );
    }

-- Cuts from 0 to the length of the bytes, each at or behind the one before it and at most `m`
-- bytes on.
pub record IsCut (m : ℕ) (bytes cuts : List ℕ) : Type 0 where
  pub rest : List ℕ
  pub starts : cuts ≡ 0 ∷ rest
  pub gaps : Gaps m 0 rest
  pub ends : last_or 0 rest ≡ length bytes

pub Cut-IsCut : (m : ℕ) (s : Encoding) → Cut m s → Ended s → IsCut m s.buf s.cuts
Cut-IsCut m s c (r, e) = record {
  rest = c.rest;
  starts = c.starts;
  gaps = c.gaps;
  ends = ap (last_or 0) (sym c.starts ∙ e) ∙ last_or-snoc 0 (length s.buf) r;
}
