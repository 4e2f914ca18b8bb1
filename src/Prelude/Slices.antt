-- ===== src/Prelude/Slices.antt =====
-- `take` and `drop` against `++`, and the slice `&xs[a..b]`.
use icebox.Prelude.Lists.{get_or, length-drop, length-take, length, take, drop}
use Prim.Native.Nat.{ℕ, zero, suc, ◌+◌, ◌-◌, ◌≤◌}
use mathlib.Core.Path.{◌≡◌, refl, ap}
use mathlib.Core.List.{List, [], ◌∷◌, ◌++◌}
use native.Mathlib.Omega.{arith}

module _ {ℓ} {A : Type ℓ} where
  -- The elements from position `a` up to `b`, for `a ≤ b`.
  abbrev pub slice : ℕ → ℕ → List A → List A
  slice a b xs = take (b - a) (drop a xs)

  pub take-append-drop : (n : ℕ) (xs : List A) → take n xs ++ drop n xs ≡ xs
  take-append-drop zero xs = refl
  take-append-drop (suc n) [] = refl
  take-append-drop (suc n) (x ∷ xs) = rw (take-append-drop n xs)

  pub take-append_exact : (n : ℕ) (xs ys : List A) → length xs ≡ n → take n (xs ++ ys) ≡ xs
  take-append_exact zero [] ys h = refl
  take-append_exact zero (x ∷ xs) ys h = absurd (omega arith)
  take-append_exact (suc n) [] ys h = absurd (omega arith)
  take-append_exact (suc n) (x ∷ xs) ys h =
      ap (λ t. x ∷ t) (take-append_exact n xs ys (omega arith))

  pub drop-append_exact : (n : ℕ) (xs ys : List A) → length xs ≡ n → drop n (xs ++ ys) ≡ ys
  drop-append_exact zero [] ys h = refl
  drop-append_exact zero (x ∷ xs) ys h = absurd (omega arith)
  drop-append_exact (suc n) [] ys h = absurd (omega arith)
  drop-append_exact (suc n) (x ∷ xs) ys h = drop-append_exact n xs ys (omega arith)

  pub take_all : (n : ℕ) (xs : List A) → length xs ≤ n → take n xs ≡ xs
  take_all zero [] h = refl
  take_all zero (x ∷ xs) h = absurd (omega arith)
  take_all (suc n) [] h = refl
  take_all (suc n) (x ∷ xs) h = ap (λ t. x ∷ t) (take_all n xs (omega arith))

  pub drop_all : (n : ℕ) (xs : List A) → length xs ≤ n → drop n xs ≡ []
  drop_all zero [] h = refl
  drop_all zero (x ∷ xs) h = absurd (omega arith)
  drop_all (suc n) [] h = refl
  drop_all (suc n) (x ∷ xs) h = drop_all n xs (omega arith)

  -- A prefix of a concatenation that ends inside its first part.
  pub take-append_le : (n : ℕ) (xs ys : List A) → n ≤ length xs → take n (xs ++ ys) ≡ take n xs
  take-append_le zero xs ys h = refl
  take-append_le (suc n) [] ys h = absurd (omega arith)
  take-append_le (suc n) (x ∷ xs) ys h = ap (λ t. x ∷ t) (take-append_le n xs ys (omega arith))

  -- Two neighbouring slices join.
  pub take-append-slice : (a b : ℕ) (xs : List A) → a ≤ b → take a xs ++ slice a b xs ≡ take b xs
  take-append-slice zero b xs h = ap (λ k. take k xs) (omega arith)
  take-append-slice (suc a) zero xs h = absurd (omega arith)
  take-append-slice (suc a) (suc b) [] h = take_all (suc b - suc a) [] (omega arith)
  take-append-slice (suc a) (suc b) (x ∷ xs) h =
      let e : suc b - suc a ≡ b - a = omega arith in
      rw e (ap (λ t. x ∷ t) (take-append-slice a b xs (omega arith)))

  take_none : (k : ℕ) (ys : List A) → k ≡ 0 → [] ≡ take k ys
  take_none zero ys h = refl
  take_none (suc k) ys h = absurd (omega arith)

  pub take-append :
      (n : ℕ) (xs ys : List A) → take n (xs ++ ys) ≡ take n xs ++ take (n - length xs) ys
  take-append zero [] ys = refl
  take-append zero (x ∷ xs) ys = take_none (zero - length (x ∷ xs)) ys (omega arith)
  take-append (suc n) [] ys = let e : suc n ≡ suc n - 0 = omega arith in ap (λ k. take k ys) e
  take-append (suc n) (x ∷ xs) ys =
      let e : suc n - suc (length xs) ≡ n - length xs = omega arith in
      rw e (ap (λ t. x ∷ t) (take-append n xs ys))

  pub slice-append :
      (a b c : ℕ) (xs : List A) → a ≤ b → b ≤ c → slice a b xs ++ slice b c xs ≡ slice a c xs
  slice-append zero b c xs h k =
      let eb : b - 0 ≡ b = omega arith in
      let ec : c - 0 ≡ c = omega arith in rw (eb, ec) (take-append-slice b c xs k)
  slice-append (suc a) zero c xs h k = absurd (omega arith)
  slice-append (suc a) (suc b) zero xs h k = absurd (omega arith)
  slice-append (suc a) (suc b) (suc c) [] h k = rw (
    take_all (suc b - suc a) [] (omega arith),
    take_all (suc c - suc b) [] (omega arith),
    take_all (suc c - suc a) [] (omega arith),
  )
  slice-append (suc a) (suc b) (suc c) (x ∷ xs) h k =
      let e1 : suc b - suc a ≡ b - a = omega arith in
      let e2 : suc c - suc b ≡ c - b = omega arith in
      let e3 : suc c - suc a ≡ c - a = omega arith in
      rw (e1, e2, e3) (slice-append a b c xs (omega arith) (omega arith))

  pub length-slice : (a b : ℕ) (xs : List A) → a ≤ b → b ≤ length xs → length (slice a b xs) ≡ b - a
  length-slice a b xs h k = omega (arith, length-take (b - a) (drop a xs), length-drop a xs)

  pub slice_empty : (a : ℕ) (xs : List A) → slice a a xs ≡ []
  slice_empty a xs = let e : a - a ≡ 0 = omega arith in rw e

  -- The slice between what stands before it and behind it.
  pub slice_between :
      (a b : ℕ) (xs ys zs : List A)
      → length xs ≡ a
      → a + length ys ≡ b
      → slice a b (xs ++ (ys ++ zs)) ≡ ys
  slice_between a b xs ys zs h k =
      let e : length ys ≡ b - a = omega arith in
      rw (drop-append_exact a xs (ys ++ zs) h) (take-append_exact (b - a) ys zs e)

  pub get_or-append :
      (xs ys : List A) (y d : A) (i : ℕ) → length xs ≡ i → get_or (xs ++ y ∷ ys) i d ≡ y
  get_or-append [] ys y d zero h = refl
  get_or-append [] ys y d (suc i) h = absurd (omega arith)
  get_or-append (x ∷ xs) ys y d zero h = absurd (omega arith)
  get_or-append (x ∷ xs) ys y d (suc i) h = get_or-append xs ys y d i (omega arith)
