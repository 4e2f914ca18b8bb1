-- ===== src/Wallet/Invariant.antt =====
-- src/wallet.rs: calls that keep a wallet well formed however they end, and how they compose.
use icebox.Prelude.{
  ℕ, ◌-◌, ◌≤◌, ◌≡◌, refl, ap, sym, subst, ◌∙◌, Bool, true, false, leb, ltb, ◌==◌, ==_iff, ◌&&◌,
  List, ◌++◌, length, length-append, length-take, length-drop, length-set, take, drop, slice,
  length-slice, set, All, All-set, arith, if◌then◌else◌,
}
use icebox.Outcome.{Outcome, ok, err, panic, diverge, chain_elim, ok_value, index_range, assert}
use icebox.Io.{Io, lift, pure, continue, ◌>>=◌}
use icebox.Signature.{copy_into}
use icebox.Wallet.Store.{EncryptedWallet, on_dongle, this, assign}
use icebox.Wallet.Change.{assign_entry}
use icebox.Wallet.Contents.{IsBlock}

taken : (c : Bool) (x y : List ℕ) → (if c then ok x else panic) ≡ ok y → (c ≡ true) × (x ≡ y)
taken true x y e = (refl, ok_value e)
taken false x y e = absurd (cc e)

within : (a b n : ℕ) → (leb a b && leb b n) ≡ true → (a ≤ b) × (b ≤ n)
within a b n h = (ground arith, ground arith)

asserted : (c : Bool) (u : Unit {0}) → assert c ≡ ok u → c ≡ true
asserted true u e = refl
asserted false u e = absurd (cc e)

pub length-copy_into :
    (a b : ℕ) (bytes ret r : List ℕ) → copy_into a b bytes ret ≡ ok r → length r ≡ length ret
unfolding copy_into index_range
length-copy_into a b bytes ret r e = chain_elim (index_range a b ret) _ e (λ old e1 rest.
    chain_elim (assert (length old == length bytes)) _ rest (λ u e2 done_.
      let (inside, is_old) = taken (leb a b && leb b (length ret)) (slice a b ret) old e1 in
      let (low, high) = within a b (length ret) inside in
      let same : length old ≡ length bytes =
        (==_iff (length old) (length bytes)).0 (asserted (length old == length bytes) u e2) in
      let size : length old ≡ b - a = ap length (sym is_old) ∙ length-slice a b ret low high in
      ap length (sym (ok_value done_))
      ∙ omega (
        arith,
        length-append (take a ret) (bytes ++ drop b ret),
        length-append bytes (drop b ret),
        length-take a ret,
        length-drop b ret,
      )))

-- The wallets before and after a call: the network and the account are the same, no entry was added
-- or removed, and the blocks are whole.
pub record Kept (w w2 : EncryptedWallet) : Type 0 where
  pub network : w2.network ≡ w.network
  pub account : w2.account ≡ w.account
  pub count : length w2.entries ≡ length w.entries
  pub whole : All IsBlock w2.entries

same-Kept : (w : EncryptedWallet) → All IsBlock w.entries → Kept w w
same-Kept w whole = record { network = refl; account = refl; count = refl; whole = whole }

after-Kept : (w w2 w3 : EncryptedWallet) → Kept w w2 → Kept w2 w3 → Kept w w3
after-Kept w w2 w3 k l = record {
  network = l.network ∙ k.network;
  account = l.account ∙ k.account;
  count = l.count ∙ k.count;
  whole = l.whole;
}

abbrev pub Anything : {A : Type 0} → A → Type 0
Anything a = Unit

module _ {H : Type 0} where
  -- A call that keeps the wallet, whatever its result, and whose values satisfy `P`.
  unfoldable pub Keeps : {A : Type 0} → (A → Type 0) → Io (EncryptedWallet × H) A → Type 0
  Keeps {A = A} P m =
      (w : EncryptedWallet) (h : H)
      → All IsBlock w.entries
      → Kept w (m (w, h)).1.0 × ((a : A) → (m (w, h)).0 ≡ ok a → P a)

  continue-Keeps :
      {A B : Type 0} (Q : B → Type 0) (o : Outcome A) (f : A → Io (EncryptedWallet × H) B)
      (w w2 : EncryptedWallet) (h : H)
      → Kept w w2
      → ((a : A) → o ≡ ok a → Keeps Q (f a))
      → Kept w (continue o f (w2, h)).1.0 × ((b : B) → (continue o f (w2, h)).0 ≡ ok b → Q b)
  unfolding Keeps
  continue-Keeps Q (ok a) f w w2 h kept k =
      let (kept2, gives) = k a refl w2 h kept.whole in (after-Kept w w2 _ kept kept2, gives)
  continue-Keeps Q (err x) f w w2 h kept k = (kept, λ b e. absurd (cc e))
  continue-Keeps Q panic f w w2 h kept k = (kept, λ b e. absurd (cc e))
  continue-Keeps Q diverge f w w2 h kept k = (kept, λ b e. absurd (cc e))

  pub bind-Keeps :
      {A B : Type 0} (P : A → Type 0) (Q : B → Type 0) (m : Io (EncryptedWallet × H) A)
      (f : A → Io (EncryptedWallet × H) B)
      → Keeps P m
      → ((a : A) → P a → Keeps Q (f a))
      → Keeps Q (m >>= f)
  unfolding Keeps
  bind-Keeps P Q m f keeps k w h whole =
      let (kept, gives) = keeps w h whole in
      continue-Keeps Q (m (w, h)).0 f w (m (w, h)).1.0 (m (w, h)).1.1 kept (λ a e. k a (gives a e))

  pub on_dongle-Keeps :
      {A : Type 0} (P : A → Type 0) (m : Io H A)
      → ((h : H) (a : A) → (m h).0 ≡ ok a → P a)
      → Keeps P (on_dongle m)
  unfolding Keeps
  on_dongle-Keeps P m gives w h whole = (same-Kept w whole, gives h)

module _ (H : Type 0) where
  pub lift-Keeps :
      {A : Type 0} (P : A → Type 0) (o : Outcome A)
      → ((a : A) → o ≡ ok a → P a)
      → Keeps {H = H} P (lift o)
  unfolding Keeps
  lift-Keeps P o gives w h whole = (same-Kept w whole, gives)

  pub this-Keeps : Keeps {H = H} (λ w. All IsBlock w.entries) this
  unfolding Keeps
  this-Keeps w h whole =
      (same-Kept w whole, λ a e. subst (λ t. All IsBlock t.entries) (ok_value e) whole)

  pub pure-Keeps : {A : Type 0} (a : A) → Keeps {H = H} Anything (pure a)
  unfolding Keeps
  pure-Keeps a w h whole = (same-Kept w whole, λ b e. tt)

  assign_entry_by :
      (b : Bool) (w2 w : EncryptedWallet) (h : H)
      → Kept w w2
      → All IsBlock w.entries
      → Kept w (continue (assert b) (λ _. assign w2) (w, h)).1.0
  assign_entry_by true w2 w h kept whole = kept
  assign_entry_by false w2 w h kept whole = same-Kept w whole

  pub assign_entry-Keeps :
      (i : ℕ) (block : List ℕ) → IsBlock block → Keeps {H = H} Anything (assign_entry i block)
  unfolding Keeps
  assign_entry-Keeps i block size w h whole = (
    assign_entry_by (ltb i (length w.entries)) (record w { entries = set w.entries i block }) w h
        (record {
          network = refl;
          account = refl;
          count = length-set w.entries i block;
          whole = All-set IsBlock w.entries i block whole size;
        })
        whole,
    λ a e. tt,
  )
