-- ===== src/Wallet/MarkSpent.antt =====
-- src/wallet.rs: `mark_spent` and `update` against the content of the wallet.
use icebox.Prelude.{
  ℕ, ◌<◌, ◌≡◌, refl, ap, sym, subst, ◌∙◌, true, List, [], length, set, get_or, All, lt→ltb, arith,
}
use icebox.Outcome.{Outcome, ok}
use icebox.Message.CoinVersions.{Network}
use icebox.Dongle.Trait.{Trait}
use icebox.Wallet.Crates.{Crates}
use icebox.Wallet.Entry.{Entry}
use icebox.Wallet.Store.{EncryptedWallet, lookup}
use icebox.Wallet.Change.{mark_spent}
use icebox.Wallet.Honest.{Keyed, Signing}
use icebox.Wallet.RoundTrip.{
  Readable, signed_bytes, after_signing, length-signed_bytes, sign_and_encrypt_lem, reread,
  interpret-signed_bytes,
}
use icebox.Wallet.Contents.{IsBlock, open_all, wallet, Holds, Leaves, length-open_all}
use icebox.Wallet.Lookup.{entry_at, lookup_inside}
use icebox.Wallet.Put.{put_Holds}

module _ {H PublicKey Signature Script Address : Type 0}
    (lib : Crates PublicKey Signature Script Address) (dongle : Trait H PublicKey Script)
    (keyed : Keyed lib dongle) (network : Network) (account i : ℕ)
    (signing : Signing lib dongle keyed) where
  -- The entry at `i`, and no other, was replaced by bytes that are read as `e`.
  abbrev pub Replaced :
      {A : Type 0} → Outcome A × (EncryptedWallet × H) → A → List (List ℕ) → Entry Address → Type 0
  Replaced r a contents e =
      (bytes : List ℕ) × Leaves lib dongle keyed network account r a (set contents i bytes)
      × (entry_at lib dongle keyed network account i bytes
          ≡ ok (reread lib dongle keyed network account i signing e))

  mark_spent_blocks :
      (blocks contents : List (List ℕ)) (e : Entry Address) (h : H)
      → All IsBlock blocks
      → open_all lib dongle keyed network account 0 blocks ≡ contents
      → i < length blocks
      → entry_at lib dongle keyed network account i (get_or contents i []) ≡ ok e
      → Readable lib dongle keyed network account i signing (record e { spent = true })
      → Replaced
          (mark_spent lib dongle i (wallet lib dongle keyed network account blocks, h))
          tt
          contents
          (record e { spent = true })
  unfolding mark_spent
  mark_spent_blocks blocks contents e h whole opened inside is_e readable =
      let marked : Entry Address = record e { spent = true } in
      let w : EncryptedWallet = wallet lib dongle keyed network account blocks in
      let h1 : H = (lookup lib dongle w i h).1 in
      let bytes : List ℕ = signed_bytes lib dongle keyed network account i signing marked h1 in
      let found : (lookup lib dongle w i h).0 ≡ ok e =
        lookup_inside lib dongle keyed network account blocks i h whole inside
        ∙ ap (λ c. entry_at lib dongle keyed network account i (get_or c i [])) opened
        ∙ is_e in
      (
        bytes,
        rw
            (
              found,
              sign_and_encrypt_lem lib dongle keyed network account i signing marked h1
                  readable.fits,
              lt→ltb i (length blocks) inside,
            )
            (
              refl,
              put_Holds lib dongle keyed network account i blocks contents bytes
                  (after_signing lib dongle keyed network account i signing marked h1)
                  (length-signed_bytes lib dongle keyed network account i signing marked h1
                    readable.fits)
                  whole opened,
            ),
        interpret-signed_bytes lib dongle keyed network account i signing marked h1 readable,
      )

  -- On an honest dongle, for a wallet whose content at `i` is read as an entry with a date and with
  -- texts in UTF-8: `mark_spent` succeeds and changes the content at that place only, to bytes under a
  -- new signature that are read as an entry with the same fields, marked as spent, and as received if
  -- it has a trusted input and else as valid, whatever its state was.
  pub mark_spent_lem :
      (w : EncryptedWallet) (contents : List (List ℕ)) (e : Entry Address) (h : H)
      → Holds lib dongle keyed network account w contents
      → i < length contents
      → entry_at lib dongle keyed network account i (get_or contents i []) ≡ ok e
      → Readable lib dongle keyed network account i signing (record e { spent = true })
      → Replaced (mark_spent lib dongle i (w, h)) tt contents (record e { spent = true })
  mark_spent_lem w contents e h holds inside is_e readable =
      let size : length holds.blocks ≡ length contents =
        sym (length-open_all lib dongle keyed network account 0 holds.blocks)
        ∙ ap length holds.opened in
      subst (λ t. Replaced (mark_spent lib dongle i (t, h)) tt contents (record e { spent = true }))
        (sym holds.is_wallet)
        (mark_spent_blocks holds.blocks contents e h holds.whole holds.opened (omega arith) is_e
          readable)
