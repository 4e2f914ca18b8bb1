-- ===== src/Wallet/ReceiveOne.antt =====
-- src/wallet.rs: what `receive` makes of one entry.
use icebox.Prelude.{
  ℕ, suc, ◌+◌, ◌^◌, ◌<◌, ◌≡◌, refl, ap, sym, ◌∙◌, true, Bool-cases, lt→ltb, List, [], ◌∷◌, length,
  set, ◌⊎◌, inl, inr, arith,
}
use icebox.Outcome.{Outcome, ok, err, panic, diverge, index}
use icebox.Message.CoinVersions.{Network}
use icebox.Bitcoin.{Transaction, TxOut}
use icebox.Dongle.Trait.{Trait}
use icebox.Wallet.Crates.{Crates}
use icebox.Wallet.Cipher.{as_u32}
use icebox.Wallet.Entry.{Entry, EntryState}
use icebox.Wallet.Store.{EncryptedWallet}
use icebox.Wallet.Change.{receive_valid, receive_match, receive_outputs, receive_entry}
use icebox.Wallet.Honest.{Keyed, Signing, sealed_block}
use icebox.Wallet.RoundTrip.{Readable, signed_bytes, after_signing, sign_and_encrypt_lem}
use icebox.Wallet.Contents.{wallet}
use icebox.Wallet.Receive.{receive_outputs-Still}

-- The entry with the outpoint and the amount of an output.
abbrev pub received_entry :
    {Script Address : Type 0} → List ℕ → Entry Address → List ℕ → ℕ → TxOut Script → Entry Address
received_entry txid e trusted_input vout out = record e {
  state = EntryState.received;
  trusted_input = trusted_input;
  txid = txid;
  vout = as_u32 vout;
  amount = out.value;
}

module _ {H PublicKey Signature Script Address : Type 0}
    (lib : Crates PublicKey Signature Script Address) (dongle : Trait H PublicKey Script)
    (tx : Transaction Script) where
  -- The trusted inputs that the dongle gives, the hash and the values of the transaction have their
  -- sizes.
  pub record Payment : Type 0 where
    pub trusted :
        (vout : ℕ) (h : H) (trusted_input : List ℕ)
        → (dongle.get_trusted_input tx vout h).0 ≡ ok trusted_input
        → length trusted_input ≡ 56
    pub txid : length (lib.txid tx) ≡ 32
    pub values : (k : ℕ) (out : TxOut Script) → index tx.output k ≡ ok out → out.value < 2 ^ 64

module _ {H PublicKey Signature Script Address : Type 0}
    (lib : Crates PublicKey Signature Script Address) (dongle : Trait H PublicKey Script)
    (keyed : Keyed lib dongle) (network : Network) (account i : ℕ)
    (signing : Signing lib dongle keyed) (tx : Transaction Script)
    (payment : Payment lib dongle tx) where
  received-Readable :
      (e : Entry Address) (trusted_input : List ℕ) (vout : ℕ) (out : TxOut Script)
      → Readable lib dongle keyed network account i signing e
      → length trusted_input ≡ 56
      → out.value < 2 ^ 64
      → Readable lib dongle keyed network account i signing
          (received_entry (lib.txid tx) e trusted_input vout out)
  received-Readable e trusted_input vout out readable size small = record {
    fits = record {
      trusted_input = size;
      txid = payment.txid;
      vout = omega arith;
      amount = small;
      date = readable.fits.date;
      blockhash = readable.fits.blockhash;
      user = readable.fits.user;
      note = readable.fits.note;
    };
    dated = readable.dated;
    user = readable.user;
    note = readable.note;
  }

  -- The blocks when entry `i` is stored as received in the state `h`.
  abbrev pub stored : Entry Address → List (List ℕ) → H → List (List ℕ)
  stored e blocks h = set blocks i (
      sealed_block lib dongle keyed network account i
        (signed_bytes lib dongle keyed network account i signing e h)
        (after_signing lib dongle keyed network account i signing e h))

  -- The outputs of the transaction leave the blocks alone, or store the entry as received from one of
  -- them that pays to its address.
  abbrev pub Outcomes : Entry Address → List (List ℕ) → EncryptedWallet → Type 0
  Outcomes e blocks w =
      (w ≡ wallet lib dongle keyed network account blocks)
      ⊎ ((vout : ℕ) × (out : TxOut Script) × (trusted_input : List ℕ) × (h : H) × (index tx.output
              vout
            ≡ ok out)
          × (lib.script_eq out.script_pubkey (lib.script_pubkey e.address) ≡ true)
          × Readable lib dongle keyed network account i signing
              (received_entry (lib.txid tx) e trusted_input vout out)
          × (w
              ≡ wallet lib dongle keyed network account
                  (stored (received_entry (lib.txid tx) e trusted_input vout out) blocks h)))

  paid :
      (o : Outcome (List ℕ)) (vout : ℕ) (out : TxOut Script) (outs : List (TxOut Script))
      (e : Entry Address) (blocks : List (List ℕ)) (h : H)
      → (dongle.get_trusted_input tx (as_u32 vout) h).0 ≡ o
      → i < length blocks
      → e.state ≡ EntryState.valid
      → Readable lib dongle keyed network account i signing e
      → index tx.output vout ≡ ok out
      → lib.script_eq out.script_pubkey (lib.script_pubkey e.address) ≡ true
      → Outcomes e blocks
          (receive_outputs lib dongle tx i vout
            (out ∷ outs)
            e
            (wallet lib dongle keyed network account blocks, h)).1.0
  unfolding receive_outputs receive_match receive_valid
  paid (ok ti) vout out outs e blocks h is_o inside is_valid readable at pays =
      let got : Entry Address = received_entry (lib.txid tx) e ti vout out in
      let ready =
        received-Readable e ti vout out readable (payment.trusted (as_u32 vout) h ti is_o)
          (payment.values vout out at) in
      inr (
        vout,
        out,
        ti,
        (dongle.get_trusted_input tx (as_u32 vout) h).1,
        at,
        pays,
        ready,
        rw
            (
              pays,
              is_valid,
              is_o,
              sign_and_encrypt_lem lib dongle keyed network account i signing got
                  (dongle.get_trusted_input tx (as_u32 vout) h).1 ready.fits,
              lt→ltb i (length blocks) inside,
            )
            (receive_outputs-Still lib dongle tx i (vout + 1) outs got _ _ (λ u. absurd (cc u))),
      )
  paid (err x) vout out outs e blocks h is_o inside is_valid readable at pays =
      rw (pays, is_valid, is_o) (inl refl)
  paid panic vout out outs e blocks h is_o inside is_valid readable at pays =
      rw (pays, is_valid, is_o) (inl refl)
  paid diverge vout out outs e blocks h is_o inside is_valid readable at pays =
      rw (pays, is_valid, is_o) (inl refl)

  receive_outputs-Outcomes :
      (vout : ℕ) (outs : List (TxOut Script)) (e : Entry Address) (blocks : List (List ℕ)) (h : H)
      → i < length blocks
      → e.state ≡ EntryState.valid
      → Readable lib dongle keyed network account i signing e
      → ((k : ℕ) → index tx.output (vout + k) ≡ index outs k)
      → Outcomes e blocks
          (receive_outputs lib dongle tx i vout outs e
            (wallet lib dongle keyed network account blocks, h)).1.0
  unfolding receive_outputs index
  receive_outputs-Outcomes vout [] e blocks h inside is_valid readable at = inl refl
  receive_outputs-Outcomes vout (out ∷ outs) e blocks h inside is_valid readable at =
      elim (Bool-cases (lib.script_eq out.script_pubkey (lib.script_pubkey e.address))) [
        | inl pays ↦
            paid (dongle.get_trusted_input tx (as_u32 vout) h).0 vout out outs e blocks h refl
              inside is_valid readable (ap (index tx.output) (omega arith) ∙ at 0) pays
        | inr other ↦ rw other (
            receive_outputs-Outcomes (vout + 1) outs e blocks h inside is_valid readable
              (λ k. ap (index tx.output) (omega arith) ∙ at (suc k)))
      ]

  pub receive_entry-Outcomes :
      (state : EntryState) (e : Entry Address) (blocks : List (List ℕ)) (h : H)
      → e.state ≡ state
      → i < length blocks
      → (e.state ≡ EntryState.valid → Readable lib dongle keyed network account i signing e)
      → ((receive_entry lib dongle state tx i e
            (wallet lib dongle keyed network account blocks, h)).1.0
          ≡ wallet lib dongle keyed network account blocks)
        ⊎ ((e.state ≡ EntryState.valid)
            × Outcomes e blocks
                (receive_entry lib dongle state tx i e
                  (wallet lib dongle keyed network account blocks, h)).1.0)
  unfolding receive_entry
  receive_entry-Outcomes EntryState.unused e blocks h is_state inside readable = inl refl
  receive_entry-Outcomes EntryState.invalid e blocks h is_state inside readable = inl (
      receive_outputs-Still lib dongle tx i 0 tx.output e _ h (λ u. absurd (cc (sym is_state ∙ u))))
  receive_entry-Outcomes EntryState.received e blocks h is_state inside readable = inl (
      receive_outputs-Still lib dongle tx i 0 tx.output e _ h (λ u. absurd (cc (sym is_state ∙ u))))
  receive_entry-Outcomes EntryState.valid e blocks h is_state inside readable = inr (
    is_state,
    receive_outputs-Outcomes 0 tx.output e blocks h inside is_state (readable is_state)
        (λ k. ap (index tx.output) (omega arith)),
  )
