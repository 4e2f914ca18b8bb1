-- ===== src/Signature/Negated.antt =====
-- The compact form of a signature of the dongle whose `r` has 33 bytes.
use icebox.Prelude.{
  ◌∙◌, ℕ, ◌+◌, ◌-◌, ◌≤◌, ◌≡◌, refl, ap, sym, subst, false, ltb, ◌||◌, List, [], ◌∷◌, ◌++◌,
  append-nil, append_assoc, length, length-append, length-replicate, get_or, get_or-append,
  replicate, slice, slice_between, arith,
}
use icebox.Outcome.{◌>>=◌, ok, done, index_ok, index_range_ok, checked_sub_ok}
use icebox.Signature.{Secp, neg_one, copy_into, compact_long, convert_ledger_der_to_compact}
use icebox.Signature.Compact.{padded, ledger_der, replicate_add, copy_into_lem}

copy_padded :
    (s : List ℕ) → length s ≤ 32 → copy_into (32 - length s) 32 s (replicate 32 0) ≡ ok (padded s)
copy_padded s h =
    let m : ℕ = length s in
    let zs : List ℕ = replicate (32 - m) 0 in
    let e : 32 ≡ (32 - m) + m = omega arith in
    let blank : replicate 32 0 ≡ zs ++ (replicate m 0 ++ []) =
      ap (λ t. replicate t 0) e
      ∙ replicate_add (32 - m) m 0
      ∙ ap (λ t. zs ++ t) (sym (append-nil (replicate m 0))) in
    ap (copy_into (32 - m) 32 s) blank
    ∙ copy_into_lem (32 - m) 32 zs (replicate m 0) [] s (length-replicate {A = ℕ} (32 - m) 0)
        (omega (arith, length-replicate {A = ℕ} m 0)) (length-replicate {A = ℕ} m 0)
    ∙ ap (λ t. ok (zs ++ t)) (append-nil s)

-- Two halves of 32 bytes, written over zeros.
copy_halves :
    (r k : List ℕ)
    → length r ≡ 32
    → length k ≡ 32
    → (copy_into 0 32 r (replicate 64 0) >>= copy_into 32 64 k) ≡ ok (r ++ k)
copy_halves r k hr hk =
    let first : copy_into 0 32 r (replicate 64 0) ≡ ok (r ++ replicate 32 0) =
      copy_into_lem 0 32 [] (replicate 32 0) (replicate 32 0) r refl refl (sym hr) in
    let second : copy_into 32 64 k (r ++ (replicate 32 0 ++ [])) ≡ ok (r ++ (k ++ [])) =
      copy_into_lem 32 64 r (replicate 32 0) [] k hr refl (sym hk) in
    rw first (second ∙ ap (λ t. ok (r ++ t)) (append-nil k))

module _ {Signature : Type 0} (lib : Secp Signature) where
  -- A signature with an `r` of 33 bytes, the byte `x` and 32 others, and an `s` of at most 32 bytes,
  -- whatever the tags and what follows: where secp256k1 takes the padded `s` and -1 as keys, and
  -- their product is `t` of 32 bytes, the result is `r` without its first byte, and `t`.
  pub convert_negated :
      (a b c d x : ℕ) (r s rest k n t : List ℕ)
      → length r ≡ 32
      → length s ≤ 32
      → length t ≡ 32
      → lib.secret_key neg_one ≡ done n
      → lib.secret_key (padded s) ≡ done k
      → lib.mul_assign k n ≡ done t
      → convert_ledger_der_to_compact lib (ledger_der a b c d (x ∷ r) s rest) ≡ ok (r ++ t)
  unfolding convert_ledger_der_to_compact compact_long
  convert_negated a b c d x r s rest k n t hr hs ht is_n is_k is_t =
      let m : ℕ = length s in
      let sig : List ℕ = a ∷ b ∷ c ∷ 33 ∷ x ∷ (r ++ (d ∷ m ∷ (s ++ rest))) in
      let front : List ℕ = a ∷ b ∷ c ∷ 33 ∷ x ∷ (r ++ (d ∷ m ∷ [])) in
      let split : sig ≡ front ++ (s ++ rest) =
        ap (λ u. a ∷ b ∷ c ∷ 33 ∷ x ∷ u) (sym (append_assoc r (d ∷ m ∷ []) (s ++ rest))) in
      let size : length sig ≡ 39 + m + length rest =
        omega (arith, length-append r (d ∷ m ∷ (s ++ rest)), length-append s rest) in
      let is_33 : length (x ∷ r) ≡ 33 = omega arith in
      let is_m : get_or sig (5 + 33) 0 ≡ m =
        ap (λ u. get_or (a ∷ b ∷ c ∷ 33 ∷ x ∷ u) 38 0)
          (sym (append_assoc r (d ∷ []) (m ∷ (s ++ rest))))
        ∙ get_or-append (a ∷ b ∷ c ∷ 33 ∷ x ∷ (r ++ d ∷ [])) (s ++ rest) m 0 38
            (omega (arith, length-append r (d ∷ []))) in
      let is_r : slice 5 37 sig ≡ r =
        slice_between 5 37 (a ∷ b ∷ c ∷ 33 ∷ x ∷ []) r (d ∷ m ∷ (s ++ rest)) refl (omega arith) in
      let is_s : slice 39 (39 + m) sig ≡ s =
        subst (λ u. slice 39 (39 + m) u ≡ s) (sym split)
          (slice_between 39 (39 + m) front s rest (omega (arith, length-append r (d ∷ m ∷ [])))
            refl) in
      let fits : (ltb 32 m || ltb 33 33) ≡ false = ground arith in
      subst
        (λ l.
          convert_ledger_der_to_compact lib (a ∷ b ∷ c ∷ l ∷ x ∷ (r ++ (d ∷ m ∷ (s ++ rest))))
          ≡ ok (r ++ t))
        (sym is_33)
        (rw (
          index_ok sig 3 0 (omega arith),
          index_ok sig (5 + 33) 0 (omega arith),
          is_m,
          fits,
          is_n,
          checked_sub_ok 32 m hs,
          index_range_ok 39 (39 + m) sig (omega arith) (omega arith),
          is_s,
          copy_padded s hs,
          is_k,
          is_t,
          index_range_ok 5 37 sig (omega arith) (omega arith),
          is_r,
          copy_halves r t hr ht,
        ))
