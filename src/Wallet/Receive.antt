-- ===== src/Wallet/Receive.antt =====
-- src/wallet.rs: what the outputs of a transaction do to one entry in `receive`.
use icebox.Prelude.{
  ℕ, ◌+◌, ◌≡◌, ◌≢◌, refl, sym, true, false, Bool, Bool-cases, List, [], ◌∷◌, inl, inr,
  if◌then◌else◌,
}
use icebox.Error.{double_receive}
use icebox.Outcome.{Outcome, ok, err, panic, diverge, ok_value}
use icebox.Io.{Io, lift, pure, continue}
use icebox.Bitcoin.{Transaction, TxOut}
use icebox.Dongle.Trait.{Trait}
use icebox.Wallet.Crates.{Crates}
use icebox.Wallet.Entry.{Entry, EntryState}
use icebox.Wallet.Store.{EncryptedWallet}
use icebox.Wallet.Change.{receive_match, receive_outputs}

module _ {H PublicKey Signature Script Address : Type 0}
    (lib : Crates PublicKey Signature Script Address) (dongle : Trait H PublicKey Script) where
  -- The call leaves the wallet alone, and gives no other entry.
  abbrev pub Still :
      EncryptedWallet → Entry Address → Outcome (Entry Address) × (EncryptedWallet × H) → Type 0
  Still w entry r = (r.1.0 ≡ w) × ((e : Entry Address) → r.0 ≡ ok e → e ≡ entry)

  known-Still :
      (b : Bool) (w : EncryptedWallet) (entry : Entry Address) (h : H)
      → Still w entry ((if b then pure entry else lift (err double_receive)) (w, h))
  known-Still true w entry h = (refl, λ e is_e. sym (ok_value is_e))
  known-Still false w entry h = (refl, λ e is_e. absurd (cc is_e))

  receive_match-Still :
      (state : EntryState) (tx : Transaction Script) (i vout : ℕ) (out : TxOut Script)
      (entry : Entry Address) (w : EncryptedWallet) (h : H)
      → state ≢ EntryState.valid
      → Still w entry (receive_match lib dongle state tx i vout out entry (w, h))
  unfolding receive_match
  receive_match-Still EntryState.unused tx i vout out entry w h other =
      (refl, λ e is_e. absurd (cc is_e))
  receive_match-Still EntryState.invalid tx i vout out entry w h other =
      (refl, λ e is_e. absurd (cc is_e))
  receive_match-Still EntryState.received tx i vout out entry w h other = known-Still _ w entry h
  receive_match-Still EntryState.valid tx i vout out entry w h other = absurd (other refl)

  -- What follows a call that leaves the wallet alone.
  after-Still :
      {B : Type 0} (o : Outcome (Entry Address)) (f : Entry Address → Io (EncryptedWallet × H) B)
      (w w2 : EncryptedWallet) (h : H) (entry : Entry Address)
      → w2 ≡ w
      → ((e : Entry Address) → o ≡ ok e → e ≡ entry)
      → ((h : H) → (f entry (w, h)).1.0 ≡ w)
      → (continue o f (w2, h)).1.0 ≡ w
  after-Still (ok e) f w w2 h entry same gives k = rw (gives e refl, same) (k h)
  after-Still (err x) f w w2 h entry same gives k = same
  after-Still panic f w w2 h entry same gives k = same
  after-Still diverge f w w2 h entry same gives k = same

  pub receive_outputs-Still :
      (tx : Transaction Script) (i vout : ℕ) (outs : List (TxOut Script)) (entry : Entry Address)
      (w : EncryptedWallet) (h : H)
      → entry.state ≢ EntryState.valid
      → (receive_outputs lib dongle tx i vout outs entry (w, h)).1.0 ≡ w
  unfolding receive_outputs
  receive_outputs-Still tx i vout [] entry w h other = refl
  receive_outputs-Still tx i vout (out ∷ outs) entry w h other =
      elim (Bool-cases (lib.script_eq out.script_pubkey (lib.script_pubkey entry.address))) [
        | inl paid ↦
            (let (same, gives) = receive_match-Still entry.state tx i vout out entry w h other in
              rw paid (
                after-Still _ (λ e. receive_outputs lib dongle tx i (vout + 1) outs e) w _ _ entry
                  same gives (λ h. receive_outputs-Still tx i (vout + 1) outs entry w h other)))
        | inr not_paid ↦ rw not_paid (receive_outputs-Still tx i (vout + 1) outs entry w h other)
      ]
