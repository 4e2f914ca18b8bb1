-- ===== src/Prelude/Segments.antt =====
-- A byte string made of segments, and the ranges of it that are segments.
use icebox.Prelude.Lists.{length, length-append, get_or, drop}
use icebox.Prelude.Slices.{slice, slice_between}
use Prim.Native.Nat.{ℕ, zero, suc, ◌+◌, ◌-◌, ◌≤◌, ◌<◌}
use mathlib.Core.Path.{◌≡◌, refl, ap, ◌∙◌}
use mathlib.Core.List.{List, [], ◌∷◌, ◌++◌}
use native.Mathlib.Omega.{arith}

module _ {ℓ} {A : Type ℓ} where
  abbrev pub join : List (List A) → List A
  join [] = []
  join (s ∷ segments) = s ++ join segments

  -- The length of the first `k` segments.
  abbrev pub offset : ℕ → List (List A) → ℕ
  offset zero segments = 0
  offset (suc k) [] = 0
  offset (suc k) (s ∷ segments) = length s + offset k segments

  drop_past : (a : ℕ) (xs ys : List A) → drop (length xs + a) (xs ++ ys) ≡ drop a ys
  drop_past a [] ys = ap (λ k. drop k ys) (omega arith)
  drop_past a (x ∷ xs) ys =
      let e : length (x ∷ xs) + a ≡ suc (length xs + a) = omega arith in rw e (drop_past a xs ys)

  pub slice_past :
      (a b : ℕ) (xs ys : List A) → slice (length xs + a) (length xs + b) (xs ++ ys) ≡ slice a b ys
  slice_past a b xs ys =
      let e : length xs + b - (length xs + a) ≡ b - a = omega arith in rw (e, drop_past a xs ys)

  slice_nothing : (a b : ℕ) → 0 ≡ a → a + 0 ≡ b → slice {A = A} a b [] ≡ []
  slice_nothing a b h k =
      let ea : a ≡ 0 = omega arith in let eb : b ≡ 0 = omega arith in rw (ea, eb)

  pub slice_segment :
      (k a b : ℕ) (segments : List (List A))
      → offset k segments ≡ a
      → a + length (get_or segments k []) ≡ b
      → slice a b (join segments) ≡ get_or segments k []
  slice_segment zero a b [] ha hb = slice_nothing a b ha hb
  slice_segment (suc k) a b [] ha hb = slice_nothing a b ha hb
  slice_segment zero a b (s ∷ segments) ha hb = slice_between a b [] s (join segments) ha hb
  slice_segment (suc k) a b (s ∷ segments) ha hb =
      let n : ℕ = length s in
      let ea : a ≡ n + (a - n) = omega arith in
      let eb : b ≡ n + (b - n) = omega arith in
      ap (λ t. slice t b (s ++ join segments)) ea
      ∙ ap (λ t. slice (n + (a - n)) t (s ++ join segments)) eb
      ∙ slice_past (a - n) (b - n) s (join segments)
      ∙ slice_segment k (a - n) (b - n) segments (omega arith) (omega arith)

  get_or_past :
      (xs ys : List A) (i : ℕ) (d : A) → get_or (xs ++ ys) (length xs + i) d ≡ get_or ys i d
  get_or_past [] ys i d = ap (λ t. get_or ys t d) (omega arith)
  get_or_past (x ∷ xs) ys i d =
      let e : length (x ∷ xs) + i ≡ suc (length xs + i) = omega arith in
      rw e (get_or_past xs ys i d)

  get_or_inside :
      (xs ys : List A) (i : ℕ) (d : A) → i < length xs → get_or (xs ++ ys) i d ≡ get_or xs i d
  get_or_inside [] ys i d h = absurd (omega arith)
  get_or_inside (x ∷ xs) ys zero d h = refl
  get_or_inside (x ∷ xs) ys (suc i) d h = get_or_inside xs ys i d (omega arith)

  pub get_or_segment :
      (k a i : ℕ) (segments : List (List A)) (d : A)
      → i < length (get_or segments k [])
      → offset k segments + i ≡ a
      → get_or (join segments) a d ≡ get_or (get_or segments k []) i d
  get_or_segment zero a i [] d h e = absurd (omega arith)
  get_or_segment (suc k) a i [] d h e = absurd (omega arith)
  get_or_segment zero a i (s ∷ segments) d h e =
      let ea : a ≡ i = omega arith in rw ea (get_or_inside s (join segments) i d h)
  get_or_segment (suc k) a i (s ∷ segments) d h e =
      let n : ℕ = length s in
      let ea : a ≡ n + (a - n) = omega arith in
      ap (λ t. get_or (s ++ join segments) t d) ea
      ∙ get_or_past s (join segments) (a - n) d
      ∙ get_or_segment k (a - n) i segments d h (omega arith)

  pub segment_inside :
      (k : ℕ) (segments : List (List A))
      → offset k segments + length (get_or segments k []) ≤ length (join segments)
  segment_inside zero [] = omega arith
  segment_inside (suc k) [] = omega arith
  segment_inside zero (s ∷ segments) = omega (arith, length-append s (join segments))
  segment_inside (suc k) (s ∷ segments) =
      omega (arith, length-append s (join segments), segment_inside k segments)
