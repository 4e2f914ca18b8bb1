-- ===== src/Wallet/Lookup.antt =====
-- src/wallet.rs: the methods that read entries, against the content of the wallet.
use icebox.Prelude.{
  ℕ, suc, ◌+◌, ◌≤◌, ◌<◌, ◌≡◌, refl, ap, sym, subst, ◌∙◌, ltb, lt→ltb, ge→ltb, Bool-cases, ltb→lt,
  ltb→ge, inl, inr, List, [], ◌∷◌, length, get_or, All, All-inside, arith, if◌then◌else◌,
}
use icebox.Error.{entry_out_of_range}
use icebox.Outcome.{Outcome, ok, err, index_ok}
use icebox.Message.CoinVersions.{Network}
use icebox.Dongle.Trait.{Trait}
use icebox.Wallet.Crates.{Crates}
use icebox.Wallet.Entry.{Entry, interpret}
use icebox.Wallet.Store.{EncryptedWallet, lookup}
use icebox.Wallet.Honest.{Keyed, open_block}
use icebox.Wallet.RoundTrip.{address_path, decrypt_and_verify_lem}
use icebox.Wallet.Contents.{IsBlock, open_all, wallet, Holds, length-open_all, get_or-open_all}

module _ {H PublicKey Signature Script Address : Type 0}
    (lib : Crates PublicKey Signature Script Address) (dongle : Trait H PublicKey Script)
    (keyed : Keyed lib dongle) (network : Network) (account : ℕ) where
  -- The entry that the bytes at a place are read as.
  abbrev pub entry_at : ℕ → List ℕ → Outcome (Entry Address)
  entry_at i plain =
      let path : List ℕ = address_path lib dongle keyed network account i in
      interpret lib path i (keyed.key path) plain

  pub lookup_inside :
      (blocks : List (List ℕ)) (i : ℕ) (h : H)
      → All IsBlock blocks
      → i < length blocks
      → (lookup lib dongle (wallet lib dongle keyed network account blocks) i h).0
        ≡ entry_at i (get_or (open_all lib dongle keyed network account 0 blocks) i [])
  unfolding lookup
  lookup_inside blocks i h whole inside =
      let opened : open_block lib dongle keyed network account i (get_or blocks i [])
          ≡ get_or (open_all lib dongle keyed network account 0 blocks) i [] =
        ap (λ k. open_block lib dongle keyed network account k (get_or blocks i [])) (omega arith)
        ∙ sym (get_or-open_all lib dongle keyed network account 0 i blocks inside) in
      rw (ge→ltb (length blocks) (i + 1) (omega arith), index_ok blocks i [] inside)
        (decrypt_and_verify_lem lib dongle keyed network account i (get_or blocks i []) h
            (All-inside IsBlock blocks i [] whole inside)
          ∙ ap (entry_at i) opened)

  -- On an honest dongle, for a wallet of whole blocks: `lookup` reads the entry from the content at its
  -- index, and fails with the index for one that is out of range.
  pub lookup_lem :
      (w : EncryptedWallet) (contents : List (List ℕ)) (i : ℕ) (h : H)
      → Holds lib dongle keyed network account w contents
      → (lookup lib dongle w i h).0 ≡ (
          if ltb i (length contents)
          then entry_at i (get_or contents i [])
          else err (entry_out_of_range i))
  unfolding lookup
  lookup_lem w contents i h holds =
      let blocks : List (List ℕ) = holds.blocks in
      let size : length blocks ≡ length contents =
        sym (length-open_all lib dongle keyed network account 0 blocks) ∙ ap length holds.opened in
      subst
        (λ t. (lookup lib dongle t i h).0 ≡ (
          if ltb i (length contents)
          then entry_at i (get_or contents i [])
          else err (entry_out_of_range i)))
        (sym holds.is_wallet)
        (elim (Bool-cases (ltb i (length contents))) [
          | inl e ↦ rw e (
              lookup_inside blocks i h holds.whole
                (omega (arith, ltb→lt i (length contents) e, size))
              ∙ ap (λ c. entry_at i (get_or c i [])) holds.opened)
          | inr e ↦ rw (
            e,
            lt→ltb (length blocks) (i + 1) (omega (arith, ltb→ge i (length contents) e, size)),
          )
        ])

  -- The contents from place `i` on are read as these entries.
  abbrev pub Reads : ℕ → List (List ℕ) → List (Entry Address) → Type 0
  Reads i [] [] = Unit
  Reads i [] (e ∷ es) = ⊥
  Reads i (p ∷ ps) [] = ⊥
  Reads i (p ∷ ps) (e ∷ es) = (entry_at i p ≡ ok e) × Reads (i + 1) ps es

  -- `lookup` finds these entries from place `i` on.
  abbrev pub Finds : EncryptedWallet → ℕ → List (Entry Address) → Type 0
  Finds w i [] = Unit
  Finds w i (e ∷ es) = ((h : H) → (lookup lib dongle w i h).0 ≡ ok e) × Finds w (i + 1) es

  Reads-Finds :
      (w : EncryptedWallet) (contents : List (List ℕ)) (i : ℕ) (ps : List (List ℕ))
      (es : List (Entry Address))
      → Holds lib dongle keyed network account w contents
      → ((k : ℕ) → k < length ps → get_or contents (i + k) [] ≡ get_or ps k [])
      → i + length ps ≤ length contents
      → Reads i ps es
      → Finds w i es
  Reads-Finds w contents i [] [] holds same inside r = tt
  Reads-Finds w contents i [] (e ∷ es) holds same inside r = absurd r
  Reads-Finds w contents i (p ∷ ps) [] holds same inside r = absurd r
  Reads-Finds w contents i (p ∷ ps) (e ∷ es) holds same inside r =
      let here : get_or contents i [] ≡ p =
        ap (λ k. get_or contents k []) (omega arith) ∙ same 0 (omega arith) in
      (
        λ h.
            lookup_lem w contents i h holds
            ∙ rw (lt→ltb i (length contents) (omega arith), here) r.0,
        Reads-Finds w contents (i + 1) ps es holds
            (λ k lt.
              ap (λ j. get_or contents j []) (omega arith) ∙ same (suc k) (omega (arith, lt)))
            (omega arith) r.1,
      )

  pub every-Finds :
      (w : EncryptedWallet) (contents : List (List ℕ)) (es : List (Entry Address))
      → Holds lib dongle keyed network account w contents
      → Reads 0 contents es
      → Finds w 0 es
  every-Finds w contents es holds r =
      Reads-Finds w contents 0 contents es holds
        (λ k lt. ap (λ j. get_or contents j []) (omega arith)) (omega arith) r

  pub length-Reads :
      (i : ℕ) (ps : List (List ℕ)) (es : List (Entry Address))
      → Reads i ps es
      → length ps ≡ length es
  length-Reads i [] [] r = refl
  length-Reads i [] (e ∷ es) r = absurd r
  length-Reads i (p ∷ ps) [] r = absurd r
  length-Reads i (p ∷ ps) (e ∷ es) r = ap suc (length-Reads (i + 1) ps es r.1)

  -- The number of entries of the wallet.
  pub count_entries :
      (w : EncryptedWallet) (contents : List (List ℕ)) (es : List (Entry Address))
      → Holds lib dongle keyed network account w contents
      → Reads 0 contents es
      → length w.entries ≡ length es
  count_entries w contents es holds r =
      ap (λ t. length t.entries) holds.is_wallet
      ∙ sym (length-open_all lib dongle keyed network account 0 holds.blocks)
      ∙ ap length holds.opened
      ∙ length-Reads 0 contents es r
