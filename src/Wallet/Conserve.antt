-- ===== src/Wallet/Conserve.antt =====
-- src/wallet.rs: the accounts of `get_inputs_and_change`, through its loop.
use icebox.Prelude.{
  ℕ, ◌+◌, ◌*◌, ◌/◌, ◌^◌, ◌≡◌, refl, ap, sym, subst, ◌∙◌, Bool, true, false, ltb, List, [], ◌∷◌,
  ◌++◌, map, append-nil, append_assoc, length, length-append, All, All-append, arith, if◌then◌else◌,
}
use icebox.Outcome.{ok, panic, ok_value, chain_elim}
use icebox.Bitcoin.{TxOut}
use icebox.Spend.{Spend}
use icebox.Wallet.Crates.{Crates}
use icebox.Wallet.Entry.{Entry, EntryState}
use icebox.Wallet.Pick.{
  Found, add_u64, base_size, from_entry, pick, pick_by, pick_change, pick_input, pick_received,
  needed,
}

if_ok : (b : Bool) (x c : ℕ) → (if b then ok x else panic) ≡ ok c → c ≡ x
if_ok true x c e = sym (ok_value e)
if_ok false x c e = absurd (cc e)

pub add_u64_ok : (a b c : ℕ) → add_u64 a b ≡ ok c → c ≡ a + b
add_u64_ok a b c e = if_ok (ltb (a + b) (2 ^ 64)) (a + b) c e

pub needed_ok :
    (rate total size n : ℕ) → needed rate total size ≡ ok n → n ≡ total + size * rate / 1000
unfolding needed
needed_ok rate total size n e = chain_elim _ _ e (λ fee e1 e2.
    let is_fee : fee ≡ size * rate = if_ok (ltb (size * rate) (2 ^ 64)) (size * rate) fee e1 in
    add_u64_ok total (fee / 1000) n e2 ∙ rw is_fee)

-- The amounts of entries, and the values of outputs.
abbrev pub amounts : {Address : Type 0} → List (Entry Address) → ℕ
amounts [] = 0
amounts (e ∷ es) = e.amount + amounts es

pub amounts-append :
    {Address : Type 0} (xs ys : List (Entry Address)) → amounts (xs ++ ys) ≡ amounts xs + amounts ys
amounts-append [] ys = omega arith
amounts-append (x ∷ xs) ys = omega (arith, amounts-append xs ys)

-- `map` on a list with one more element.
map_snoc_lem {ℓ κ} :
    {A : Type ℓ} {B : Type κ} (f : A → B) (xs : List A) (x : A)
    → map f (xs ++ x ∷ []) ≡ map f xs ++ f x ∷ []
map_snoc_lem f [] x = refl
map_snoc_lem f (y ∷ xs) x = ap (λ t. f y ∷ t) (map_snoc_lem f xs x)

-- An entry with coins that are not marked as spent.
abbrev pub IsUsable : {Address : Type 0} → Entry Address → Type 0
IsUsable e = (e.state ≡ EntryState.received) × (e.spent ≡ false)

abbrev pub only : {Address : Type 0} → Bool → Entry Address → List (Entry Address)
only true e = e ∷ []
only false e = []

module _ {PublicKey Signature Script Address : Type 0}
    (lib : Crates PublicKey Signature Script Address) (start : Spend Script) where
  -- The outputs while the loop runs: those of the start, and one more once the change is found.
  abbrev pub Outputs : Bool → List (TxOut Script) → Type 0
  Outputs false outputs = outputs ≡ start.output
  Outputs true outputs = (out : TxOut Script) × (outputs ≡ start.output ++ out ∷ [])

  -- What holds when the entries `used` were taken as inputs.
  pub record Progress (used : List (Entry Address)) (found : Found) (spend : Spend Script)
      : Type 0 where
    pub inputs : spend.input ≡ start.input ++ map (from_entry lib) used
    pub amount : found.found_amount ≡ amounts used
    pub size : found.size_bytes ≡ base_size start + 150 * length used
    pub outputs : Outputs found.found_change spend.output
    pub usable : All IsUsable used

  -- The entry was taken or not.
  abbrev Step : List (Entry Address) → Entry Address → Found × Spend Script → Type 0
  Step used entry r = (b : Bool) × Progress (used ++ only b entry) r.0 r.1

  stays :
      (used : List (Entry Address)) (entry : Entry Address) (found : Found) (spend : Spend Script)
      (r : Found × Spend Script)
      → Progress used found spend
      → ok (found, spend) ≡ ok r
      → Step used entry r
  stays used entry found spend r progress e =
      subst (Step used entry) (ok_value e)
        (false, subst (λ t. Progress t found spend) (sym (append-nil used)) progress)

  pick_change-Step :
      (b : Bool) (path : List ℕ) (used : List (Entry Address)) (entry : Entry Address)
      (found : Found) (spend : Spend Script) (r : Found × Spend Script)
      → found.found_change ≡ b
      → Progress used found spend
      → pick_change lib b path entry found spend ≡ ok r
      → Step used entry r
  unfolding pick_change
  pick_change-Step true path used entry found spend r is_b progress e =
      stays used entry found spend r progress e
  pick_change-Step false path used entry found spend r is_b progress e =
      let outputs : spend.output ≡ start.output =
        subst (λ t. Outputs t spend.output) is_b progress.outputs in
      let out : TxOut Script = record {
        script_pubkey = lib.script_pubkey entry.address;
        value = 0;
      } in
      subst (Step used entry) (ok_value e) (
        false,
        record {
          inputs =
              progress.inputs
              ∙ ap (λ t. start.input ++ map (from_entry lib) t) (sym (append-nil used));
          amount = progress.amount ∙ ap amounts (sym (append-nil used));
          size = progress.size ∙ ap (λ t. base_size start + 150 * length t) (sym (append-nil used));
          outputs = (out, ap (λ t. t ++ out ∷ []) outputs);
          usable = subst (All IsUsable) (sym (append-nil used)) progress.usable;
        },
      )

  pick_input-Step :
      (b : Bool) (used : List (Entry Address)) (entry : Entry Address) (found : Found)
      (spend : Spend Script) (r : Found × Spend Script)
      → IsUsable entry
      → Progress used found spend
      → pick_input lib b entry found spend ≡ ok r
      → Step used entry r
  unfolding pick_input
  pick_input-Step false used entry found spend r usable progress e =
      stays used entry found spend r progress e
  pick_input-Step true used entry found spend r usable progress e =
      chain_elim (add_u64 found.size_bytes 150) _ e (λ size e1 rest.
        chain_elim (add_u64 found.found_amount entry.amount) _ rest (λ amount e2 done_.
          subst (Step used entry) (ok_value done_) (
            true,
            record {
              inputs =
                  ap (λ t. t ++ from_entry lib entry ∷ []) progress.inputs
                  ∙ append_assoc start.input (map (from_entry lib) used) (from_entry lib entry ∷ [])
                  ∙ ap (λ t. start.input ++ t) (sym (map_snoc_lem (from_entry lib) used entry));
              amount =
                  add_u64_ok found.found_amount entry.amount amount e2
                  ∙ omega (arith, progress.amount, amounts-append used (entry ∷ []));
              size =
                  add_u64_ok found.size_bytes 150 size e1
                  ∙ omega (arith, progress.size, length-append used (entry ∷ []));
              outputs = progress.outputs;
              usable = All-append IsUsable used (entry ∷ []) progress.usable (usable, tt);
            },
          )))

  pick_received-Step :
      (b : Bool) (rate total : ℕ) (used : List (Entry Address)) (entry : Entry Address)
      (found : Found) (spend : Spend Script) (r : Found × Spend Script)
      → entry.state ≡ EntryState.received
      → entry.spent ≡ b
      → Progress used found spend
      → pick_received lib b rate total entry found spend ≡ ok r
      → Step used entry r
  unfolding pick_received
  pick_received-Step true rate total used entry found spend r is_received is_b progress e =
      stays used entry found spend r progress e
  pick_received-Step false rate total used entry found spend r is_received is_b progress e =
      chain_elim (needed rate total found.size_bytes) _ e (λ wanted e1 rest.
        pick_input-Step (ltb found.found_amount wanted) used entry found spend r (is_received, is_b)
          progress rest)

  pick_by-Step :
      (state : EntryState) (rate total : ℕ) (path : List ℕ) (used : List (Entry Address))
      (entry : Entry Address) (found : Found) (spend : Spend Script) (r : Found × Spend Script)
      → entry.state ≡ state
      → Progress used found spend
      → pick_by lib state rate total path entry found spend ≡ ok r
      → Step used entry r
  unfolding pick_by
  pick_by-Step EntryState.unused rate total path used entry found spend r is_state progress e =
      pick_change-Step found.found_change path used entry found spend r refl progress e
  pick_by-Step EntryState.invalid rate total path used entry found spend r is_state progress e =
      stays used entry found spend r progress e
  pick_by-Step EntryState.valid rate total path used entry found spend r is_state progress e =
      stays used entry found spend r progress e
  pick_by-Step EntryState.received rate total path used entry found spend r is_state progress e =
      pick_received-Step entry.spent rate total used entry found spend r is_state refl progress e

  pub pick-Step :
      (rate total : ℕ) (path : List ℕ) (used : List (Entry Address)) (entry : Entry Address)
      (found : Found) (spend : Spend Script) (r : Found × Spend Script)
      → Progress used found spend
      → pick lib rate total path entry found spend ≡ ok r
      → Step used entry r
  unfolding pick
  pick-Step rate total path used entry found spend r progress e =
      pick_by-Step entry.state rate total path used entry found spend r refl progress e
