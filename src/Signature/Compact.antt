-- ===== src/Signature/Compact.antt =====
-- The compact form of a signature of the dongle whose `r` has at most 32 bytes, and of the DER
-- that `convert_compact_to_secp` makes.
use icebox.Prelude.{
  subst, ◌∙◌, ℕ, zero, suc, ◌+◌, ◌-◌, ◌≤◌, ◌≡◌, refl, ap, sym, true, false, ltb, lt→ltb, ◌==◌, ◌||◌,
  List, [], ◌∷◌, ◌++◌, append-nil, append_assoc, length, length-append, length-replicate, get_or,
  take, drop, replicate, slice, slice_between, get_or-append, take-append_exact, drop-append_exact,
  arith,
}
use icebox.Outcome.{ok, index_ok, index_range_ok, checked_sub_ok}
use icebox.Signature.{Secp, copy_into, compact_short, convert_ledger_der_to_compact, der_of_compact}

-- A number in 32 bytes.
abbrev pub padded : List ℕ → List ℕ
padded xs = replicate (32 - length xs) 0 ++ xs

-- A signature of the dongle: `r` and `s` behind their lengths, with other bytes between and behind.
abbrev pub ledger_der : ℕ → ℕ → ℕ → ℕ → List ℕ → List ℕ → List ℕ → List ℕ
ledger_der a b c d r s rest = a ∷ b ∷ c ∷ length r ∷ (r ++ (d ∷ length s ∷ (s ++ rest)))

pub replicate_add : (m n x : ℕ) → replicate (m + n) x ≡ replicate m x ++ replicate n x
replicate_add zero n x = ap (λ t. replicate t x) (omega arith)
replicate_add (suc m) n x =
    let e : suc m + n ≡ suc (m + n) = omega arith in rw (e, replicate_add m n x)

pub copy_into_lem :
    (a b : ℕ) (xs old ys bytes : List ℕ)
    → length xs ≡ a
    → a + length old ≡ b
    → length old ≡ length bytes
    → copy_into a b bytes (xs ++ (old ++ ys)) ≡ ok (xs ++ (bytes ++ ys))
unfolding copy_into
copy_into_lem a b xs old ys bytes ha hb h =
    let size : length (xs ++ (old ++ ys)) ≡ b + length ys =
      omega (arith, length-append xs (old ++ ys), length-append old ys) in
    let same : (length old == length bytes) ≡ true = ground arith in
    let split : xs ++ (old ++ ys) ≡ (xs ++ old) ++ ys = sym (append_assoc xs old ys) in
    let front : take a (xs ++ (old ++ ys)) ≡ xs = take-append_exact a xs (old ++ ys) ha in
    let back : drop b (xs ++ (old ++ ys)) ≡ ys =
      ap (drop b) split
      ∙ drop-append_exact b (xs ++ old) ys (omega (arith, length-append xs old)) in
    rw (
      index_range_ok a b (xs ++ (old ++ ys)) (omega arith) (omega arith),
      slice_between a b xs old ys ha hb,
      same,
      front,
      back,
    )

copy_r :
    (r : List ℕ)
    → length r ≤ 32
    → copy_into (32 - length r) 32 r (replicate 64 0) ≡ ok (padded r ++ replicate 32 0)
copy_r r h =
    let n : ℕ = length r in
    let zr : List ℕ = replicate (32 - n) 0 in
    let e : 64 ≡ (32 - n) + (n + 32) = omega arith in
    let blank : replicate 64 0 ≡ zr ++ (replicate n 0 ++ replicate 32 0) =
      ap (λ t. replicate t 0) e
      ∙ replicate_add (32 - n) (n + 32) 0
      ∙ ap (λ t. zr ++ t) (replicate_add n 32 0) in
    ap (copy_into (32 - n) 32 r) blank
    ∙ copy_into_lem (32 - n) 32 zr (replicate n 0) (replicate 32 0) r
        (length-replicate {A = ℕ} (32 - n) 0) (omega (arith, length-replicate {A = ℕ} n 0))
        (length-replicate {A = ℕ} n 0)
    ∙ ap ok (sym (append_assoc zr r (replicate 32 0)))

copy_s :
    (front s : List ℕ)
    → length front ≡ 32
    → length s ≤ 32
    → copy_into (64 - length s) 64 s (front ++ replicate 32 0) ≡ ok (front ++ padded s)
copy_s front s hf h =
    let m : ℕ = length s in
    let zs : List ℕ = replicate (32 - m) 0 in
    let e : 32 ≡ (32 - m) + m = omega arith in
    let blank : front ++ replicate 32 0 ≡ (front ++ zs) ++ (replicate m 0 ++ []) =
      ap (λ t. front ++ t)
        (ap (λ t. replicate t 0) e
          ∙ replicate_add (32 - m) m 0
          ∙ ap (λ t. zs ++ t) (sym (append-nil (replicate m 0))))
      ∙ sym (append_assoc front zs (replicate m 0 ++ [])) in
    ap (copy_into (64 - m) 64 s) blank
    ∙ copy_into_lem (64 - m) 64 (front ++ zs) (replicate m 0) [] s
        (omega (arith, length-append front zs, length-replicate {A = ℕ} (32 - m) 0))
        (omega (arith, length-replicate {A = ℕ} m 0)) (length-replicate {A = ℕ} m 0)
    ∙ ap ok (append_assoc front zs (s ++ []) ∙ ap (λ t. front ++ (zs ++ t)) (append-nil s))

module _ {Signature : Type 0} (lib : Secp Signature) where
  -- For an `r` and an `s` of at most 32 bytes, whatever the tags and what follows: the signature
  -- is converted to the two numbers, each padded with zeros to 32 bytes.
  pub convert_short :
      (a b c d : ℕ) (r s rest : List ℕ)
      → length r ≤ 32
      → length s ≤ 32
      → convert_ledger_der_to_compact lib (ledger_der a b c d r s rest) ≡ ok (padded r ++ padded s)
  unfolding convert_ledger_der_to_compact compact_short
  convert_short a b c d r s rest hr hs =
      let sig : List ℕ = ledger_der a b c d r s rest in
      let n : ℕ = length r in
      let m : ℕ = length s in
      let front : List ℕ = a ∷ b ∷ c ∷ n ∷ (r ++ (d ∷ m ∷ [])) in
      let split : sig ≡ front ++ (s ++ rest) =
        ap (λ t. a ∷ b ∷ c ∷ n ∷ t) (sym (append_assoc r (d ∷ m ∷ []) (s ++ rest))) in
      let size : length sig ≡ 6 + n + m + length rest =
        omega (arith, length-append r (d ∷ m ∷ (s ++ rest)), length-append s rest) in
      let is_m : get_or sig (5 + n) 0 ≡ m =
        ap (λ t. get_or (a ∷ b ∷ c ∷ n ∷ t) (5 + n) 0)
          (sym (append_assoc r (d ∷ []) (m ∷ (s ++ rest))))
        ∙ get_or-append (a ∷ b ∷ c ∷ n ∷ (r ++ d ∷ [])) (s ++ rest) m 0 (5 + n)
            (omega (arith, length-append r (d ∷ []))) in
      let is_r : slice 4 (4 + n) sig ≡ r =
        slice_between 4 (4 + n) (a ∷ b ∷ c ∷ n ∷ []) r (d ∷ m ∷ (s ++ rest)) refl refl in
      let is_s : slice (6 + n) (6 + n + m) sig ≡ s =
        subst (λ t. slice (6 + n) (6 + n + m) t ≡ s) (sym split)
          (slice_between (6 + n) (6 + n + m) front s rest
            (omega (arith, length-append r (d ∷ m ∷ []))) refl) in
      let wide : length (padded r) ≡ 32 =
        omega
          (arith, length-append (replicate (32 - n) 0) r, length-replicate {A = ℕ} (32 - n) 0) in
      let fits : (ltb 32 m || ltb 33 n) ≡ false = ground arith in
      rw (
        index_ok sig 3 0 (omega arith),
        index_ok sig (5 + n) 0 (omega arith),
        is_m,
        fits,
        lt→ltb n 33 (omega arith),
        checked_sub_ok 32 n hr,
        index_range_ok 4 (4 + n) sig (omega arith) (omega arith),
        is_r,
        copy_r r hr,
        checked_sub_ok 64 m (omega arith),
        index_range_ok (6 + n) (6 + n + m) sig (omega arith) (omega arith),
        is_s,
        copy_s (padded r) s wide hs,
      )

  -- For an `r` and an `s` of 32 bytes: the DER that is made of the compact signature has 70
  -- bytes, and is converted back to that signature.
  pub convert-der_of_compact :
      (r s : List ℕ)
      → length r ≡ 32
      → length s ≡ 32
      → (der : List ℕ) × (der_of_compact lib (r ++ s) ≡ ok der)
        × (length der ≡ 70)
        × (convert_ledger_der_to_compact lib der ≡ ok (r ++ s))
  unfolding der_of_compact
  convert-der_of_compact r s hr hs =
      let der : List ℕ = 0x30 ∷ 0x44 ∷ 0x02 ∷ 0x20 ∷ (r ++ (0x02 ∷ 0x20 ∷ s)) in
      let size : length (r ++ s) ≡ 64 = omega (arith, length-append r s) in
      let first : slice 0 32 (r ++ s) ≡ r = slice_between 0 32 [] r s refl (omega arith) in
      let second : slice 32 64 (r ++ s) ≡ s =
        ap (λ t. slice 32 64 (r ++ t)) (sym (append-nil s))
        ∙ slice_between 32 64 r s [] hr (omega arith) in
      let is_der : ledger_der 0x30 0x44 0x02 0x02 r s [] ≡ der = rw (hr, hs, append-nil) in
      let result : padded r ++ padded s ≡ r ++ s = rw (hr, hs) in
      (
        der,
        rw (
          index_range_ok 0 32 (r ++ s) (omega arith) (omega arith),
          index_range_ok 32 64 (r ++ s) (omega arith) (omega arith),
          first,
          second,
        ),
        omega (arith, length-append r (0x02 ∷ 0x20 ∷ s)),
        ap (convert_ledger_der_to_compact lib) (sym is_der)
            ∙ convert_short 0x30 0x44 0x02 0x02 r s [] (omega arith) (omega arith)
            ∙ ap ok result,
      )
