-- ===== src/Wallet/Settle.antt =====
-- src/wallet.rs: `get_inputs_and_change` behind its loop: the fee, the change and the dust limit.
use icebox.Prelude.{
  ℕ, ◌+◌, ◌-◌, ◌*◌, ◌/◌, ◌%◌, ◌^◌, ◌≤◌, ◌<◌, ◌≡◌, refl, ap, sym, subst, ◌∙◌, Bool, true, false, ltb,
  ltb→lt, ltb→ge, Bool-cases, List, [], ◌∷◌, ◌++◌, map, length, length-append, take-append_exact,
  arith, ◌⊎◌, inl, inr, if◌then◌else◌,
}
use icebox.Outcome.{Outcome, ok, err, panic, ok_value, chain_elim, checked_sub}
use icebox.Error.{Error}
use icebox.Bitcoin.{TxOut}
use icebox.Spend.{Spend}
use icebox.Wallet.Crates.{Crates}
use icebox.Wallet.Entry.{Entry}
use icebox.Wallet.Pick.{
  Found, base_size, from_entry, sum_outputs, set_last_value, without_change, with_change, and_spend,
  need_change, add_u64, settle, settle_from, finish, needed,
}
use icebox.Wallet.Conserve.{Progress, Outputs, amounts, needed_ok, add_u64_ok}

module _ {Script : Type 0} where
  abbrev pub values : List (TxOut Script) → ℕ
  values [] = 0
  values (out ∷ outs) = out.value + values outs

  values-append : (xs ys : List (TxOut Script)) → values (xs ++ ys) ≡ values xs + values ys
  values-append [] ys = omega arith
  values-append (x ∷ xs) ys = omega (arith, values-append xs ys)

  pub sum_outputs_ok :
      (outs : List (TxOut Script)) (t n : ℕ) → sum_outputs t outs ≡ ok n → n ≡ t + values outs
  unfolding sum_outputs
  sum_outputs_ok [] t n e = sym (ok_value e) ∙ omega arith
  sum_outputs_ok (out ∷ outs) t n e = chain_elim (add_u64 t out.value) _ e (λ t2 e1 e2.
      let sum : t2 ≡ t + out.value = add_u64_ok t out.value t2 e1 in
      sum_outputs_ok outs t2 n e2 ∙ omega (arith, sum))

  set_last_value-append :
      (v : ℕ) (outs : List (TxOut Script)) (out : TxOut Script)
      → set_last_value v (outs ++ out ∷ []) ≡ ok (outs ++ record out { value = v } ∷ [])
  unfolding set_last_value
  set_last_value-append v [] out = refl
  set_last_value-append v (x ∷ []) out = refl
  set_last_value-append v (x ∷ y ∷ outs) out = rw (set_last_value-append v (y ∷ outs) out)

  -- The branch of the result that succeeds.
  past_error :
      (b : Bool) (e : Error) (spend res : Spend Script) (y : Outcome (Unit {0}) × Spend Script)
      → (if b then (err e, spend) else y) ≡ (ok tt, res)
      → (b ≡ false) × (y ≡ (ok tt, res))
  past_error true e spend res y h = absurd (cc (ap (λ t. t.0) h))
  past_error false e spend res y h = (refl, h)

  settle_from_ok :
      (found : Found) (o : Outcome ℕ) (spend res : Spend Script)
      → settle_from found o spend ≡ (ok tt, res)
      → (n : ℕ) × (o ≡ ok n)
        × (n ≤ found.found_amount)
        × (settle found.found_change (found.found_amount - n) spend ≡ (ok tt, res))
  settle_from_ok found (ok n) spend res h =
      let (enough, rest) = past_error (ltb found.found_amount n) _ spend res _ h in
      (n, refl, ltb→ge found.found_amount n enough, rest)
  settle_from_ok found (err e) spend res h = absurd (cc (ap (λ t. t.0) h))
  settle_from_ok found panic spend res h = absurd (cc (ap (λ t. t.0) h))
  settle_from_ok found Outcome.diverge spend res h = absurd (cc (ap (λ t. t.0) h))

  has_change :
      (c : Bool) (o : Outcome (Spend Script)) (spend res : Spend Script)
      → need_change c (and_spend spend o) ≡ (ok tt, res)
      → (c ≡ true) × (o ≡ ok res)
  has_change true (ok new) spend res h = (refl, ap ok (ap (λ t. t.1) h))
  has_change false (ok new) spend res h = absurd (cc (ap (λ t. t.0) h))
  has_change c (err e) spend res h = absurd (cc (ap (λ t. t.0) h))
  has_change c panic spend res h = absurd (cc (ap (λ t. t.0) h))
  has_change c Outcome.diverge spend res h = absurd (cc (ap (λ t. t.0) h))

-- The size that the fee is taken for: that of the outputs with one for the change, and 150 bytes for
-- each input.
abbrev pub fee : {Script Address : Type 0} → ℕ → Spend Script → List (Entry Address) → ℕ
fee rate start used = (base_size start + 150 * length used) * rate / 1000

module _ {PublicKey Signature Script Address : Type 0}
    (lib : Crates PublicKey Signature Script Address) (start : Spend Script) where
  -- No change: what the outputs and the fee leave of the inputs is below the dust limit.
  pub record Changeless (rate : ℕ) (used : List (Entry Address)) (res : Spend Script) : Type 0 where
    pub outputs : res.output ≡ start.output
    pub none : res.change_amount ≡ 0
    pub covered : values res.output + fee rate start used ≤ amounts used
    pub dust : amounts used < values res.output + fee rate start used + 10000

  -- The change is one more output, not below the dust limit, and the inputs are the outputs and the
  -- fee.
  pub record Changed (rate : ℕ) (used : List (Entry Address)) (res : Spend Script) : Type 0 where
    pub out : TxOut Script
    pub outputs : res.output ≡ start.output ++ out ∷ []
    pub change : out.value ≡ res.change_amount
    pub dust : 10000 ≤ res.change_amount
    pub balance : amounts used ≡ values res.output + fee rate start used

  -- The inputs of the result are those of the entries, and the accounts balance.
  abbrev pub Settled : ℕ → List (Entry Address) → Spend Script → Type 0
  Settled rate used res =
      (res.input ≡ start.input ++ map (from_entry lib) used)
      × (Changeless rate used res ⊎ Changed rate used res)

  without_change_output :
      (c : Bool) (spend : Spend Script)
      → Outputs lib start c spend.output
      → (without_change c spend).output ≡ start.output
  without_change_output false spend outputs = outputs
  without_change_output true spend (out, outputs) = rw (outputs) (
      take-append_exact (length (start.output ++ out ∷ []) - 1) start.output (out ∷ [])
        (omega (arith, length-append start.output (out ∷ []))))

  with_change_lem :
      (v : ℕ) (spend res : Spend Script) (out : TxOut Script)
      → spend.output ≡ start.output ++ out ∷ []
      → with_change v spend ≡ ok res
      → (res.input ≡ spend.input)
        × (res.change_amount ≡ v)
        × (res.output ≡ start.output ++ record out { value = v } ∷ [])
  unfolding with_change
  with_change_lem v spend res out outputs e =
      let last : List (TxOut Script) = start.output ++ record out { value = v } ∷ [] in
      let is_last : set_last_value v spend.output ≡ ok last =
        ap (set_last_value v) outputs ∙ set_last_value-append v start.output out in
      chain_elim (set_last_value v spend.output) _ e (λ outs e1 rest.
        chain_elim (checked_sub (length outs % 2 ^ 32) 1) _ rest (λ vout e2 done_.
          let is_outs : outs ≡ last = ok_value (sym e1 ∙ is_last) in
          let is_res = ok_value done_ in
          (
            sym (ap (λ t. t.input) is_res),
            sym (ap (λ t. t.change_amount) is_res),
            sym (ap (λ t. t.output) is_res) ∙ is_outs,
          )))

  settle_small :
      (c : Bool) (rest : ℕ) (spend res : Spend Script)
      → ltb rest 10000 ≡ true
      → settle c rest spend ≡ (ok tt, res)
      → without_change c spend ≡ res
  settle_small c rest spend res small e =
      let first : settle c rest spend ≡ (ok tt, without_change c spend) = rw small in
      ap (λ t. t.1) (sym first ∙ e)

  settle_large :
      (c : Bool) (rest : ℕ) (spend res : Spend Script)
      → ltb rest 10000 ≡ false
      → settle c rest spend ≡ (ok tt, res)
      → (c ≡ true) × (with_change rest spend ≡ ok res)
  settle_large c rest spend res large e =
      let first : settle c rest spend ≡ need_change c (and_spend spend (with_change rest spend)) =
        rw large in
      has_change c (with_change rest spend) spend res (sym first ∙ e)

  with_change-Settled :
      (rate v : ℕ) (used : List (Entry Address)) (spend res : Spend Script) (out : TxOut Script)
      → spend.input ≡ start.input ++ map (from_entry lib) used
      → spend.output ≡ start.output ++ out ∷ []
      → amounts used ≡ values start.output + fee rate start used + v
      → 10000 ≤ v
      → with_change v spend ≡ ok res
      → Settled rate used res
  with_change-Settled rate v used spend res out inputs outputs sum large e =
      let (is_input, is_change, is_output) = with_change_lem v spend res out outputs e in
      let total : values res.output ≡ values start.output + v =
        ap values is_output
        ∙ values-append start.output (record out { value = v } ∷ [])
        ∙ omega arith in
      (
        is_input ∙ inputs,
        inr (record {
          out = record out { value = v };
          outputs = is_output;
          change = sym is_change;
          dust = omega (arith, is_change);
          balance = sum ∙ omega (arith, total);
        }),
      )

  pub finish_lem :
      (rate total : ℕ) (used : List (Entry Address)) (found : Found) (spend res : Spend Script)
      → total ≡ values start.output
      → Progress lib start used found spend
      → finish rate total found spend ≡ (ok tt, res)
      → Settled rate used res
  unfolding finish
  finish_lem rate total used found spend res is_total progress e =
      let (n, is_n, enough, settled) =
        settle_from_ok found (needed rate total found.size_bytes) spend res e in
      let cost : n ≡ values start.output + fee rate start used =
        needed_ok rate total found.size_bytes n is_n ∙ rw (is_total, progress.size) in
      let rest : ℕ = found.found_amount - n in
      elim (Bool-cases (ltb rest 10000)) [
        | inl small ↦
            (let is_res = settle_small found.found_change rest spend res small settled in
              let outputs : res.output ≡ start.output =
                sym (ap (λ t. t.output) is_res)
                ∙ without_change_output found.found_change spend progress.outputs in
              (
                sym (ap (λ t. t.input) is_res) ∙ progress.inputs,
                inl (record {
                  outputs = outputs;
                  none = sym (ap (λ t. t.change_amount) is_res);
                  covered = omega (arith, ap values outputs, progress.amount, cost, enough);
                  dust =
                      omega
                        (arith, ap values outputs, progress.amount, cost, ltb→lt rest 10000 small);
                }),
              ))
        | inr large ↦
            (let (is_true, changed) =
                settle_large found.found_change rest spend res large settled in
              let (out, outputs) : Outputs lib start true spend.output =
                subst (λ t. Outputs lib start t spend.output) is_true progress.outputs in
              with_change-Settled rate rest used spend res out progress.inputs outputs
                (omega (arith, progress.amount, cost, enough)) (ltb→ge rest 10000 large) changed)
      ]
