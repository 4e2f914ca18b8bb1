-- ===== src/Packets/Cuts.antt =====
-- Cut points by their index.
use icebox.Prelude.{
  ℕ, zero, suc, ◌+◌, ◌≤◌, ◌<◌, ◌≡◌, refl, ap, List, [], ◌∷◌, length, get_or, arith,
}
use icebox.Cutpoints.Gaps.{Gaps, last_or, IsCut}

Gaps-step :
    (m a i : ℕ) (r : List ℕ)
    → Gaps m a r
    → i < length r
    → (get_or (a ∷ r) i 0 ≤ get_or (a ∷ r) (suc i) 0)
      × (get_or (a ∷ r) (suc i) 0 ≤ get_or (a ∷ r) i 0 + m)
Gaps-step m a i [] g h = absurd (omega arith)
Gaps-step m a zero (b ∷ r) g h = (g.0, g.1)
Gaps-step m a (suc i) (b ∷ r) g h = Gaps-step m b i r g.2 (omega arith)

get_or-last : (a : ℕ) (r : List ℕ) → get_or (a ∷ r) (length r) 0 ≡ last_or a r
get_or-last a [] = refl
get_or-last a (b ∷ r) = get_or-last b r

Gaps-first : (m a : ℕ) (r : List ℕ) → Gaps m a r → a ≤ last_or a r
Gaps-first m a [] g = omega arith
Gaps-first m a (b ∷ r) g = omega (arith, g.0, Gaps-first m b r g.2)

Gaps-inside :
    (m a i : ℕ) (r : List ℕ) → Gaps m a r → i ≤ length r → get_or (a ∷ r) i 0 ≤ last_or a r
Gaps-inside m a zero r g h = Gaps-first m a r g
Gaps-inside m a (suc i) [] g h = absurd (omega arith)
Gaps-inside m a (suc i) (b ∷ r) g h = Gaps-inside m b i r g.2 (omega arith)

module _ (m : ℕ) {ser cuts : List ℕ} (c : IsCut m ser cuts) where
  pub cut_first : (0 < length cuts) × (get_or cuts 0 0 ≡ 0)
  cut_first = rw c.starts (omega arith, refl)

  -- Neighbouring cuts are in order, and at most `m` apart.
  pub cut_step :
      (i : ℕ)
      → i + 1 < length cuts
      → (get_or cuts i 0 ≤ get_or cuts (i + 1) 0) × (get_or cuts (i + 1) 0 ≤ get_or cuts i 0 + m)
  cut_step i h =
      let e : i + 1 ≡ suc i = omega arith in
      let h' : i < length c.rest = omega (arith, ap length c.starts) in
      rw (e, c.starts) (Gaps-step m 0 i c.rest c.gaps h')

  pub cut_inside : (i : ℕ) → i < length cuts → get_or cuts i 0 ≤ length ser
  cut_inside i h =
      let h' : i ≤ length c.rest = omega (arith, ap length c.starts) in
      rw (c.starts, ← c.ends) (Gaps-inside m 0 i c.rest c.gaps h')

  pub cut_last : (i : ℕ) → i + 1 ≡ length cuts → get_or cuts i 0 ≡ length ser
  cut_last i h =
      let h' : i ≡ length c.rest = omega (arith, ap length c.starts) in
      rw (c.starts, h', get_or-last) c.ends
