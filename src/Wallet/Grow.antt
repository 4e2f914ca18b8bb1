-- ===== src/Wallet/Grow.antt =====
-- src/wallet.rs: `new` and `extend` against the content of the wallet.
use icebox.Prelude.{
  ℕ, zero, suc, ◌+◌, ◌-◌, ◌≡◌, refl, ap, ap₂, sym, subst, ◌∙◌, leb, List, [], ◌∷◌, ◌++◌, append-nil,
  append_assoc, length, length-append, replicate, All, All-append, arith, Bool-cases, inl, inr,
}
use icebox.Outcome.{ok}
use icebox.Message.CoinVersions.{Network}
use icebox.Dongle.Trait.{Trait}
use icebox.Wallet.Crates.{Crates}
use icebox.Wallet.Cipher.{encrypt}
use icebox.Wallet.Store.{EncryptedWallet, push_blank, new_loop, new, extend_loop, extend}
use icebox.Wallet.Honest.{
  Keyed, open_block, sealed_block, encrypt_lem, length-sealed_block, open-sealed_block,
}
use icebox.Wallet.Contents.{
  IsBlock, open_all, wallet, Holds, Leaves, length-open_all, open_all-push,
}

abbrev pub blank : List ℕ
blank = replicate 336 0

module _ {H PublicKey Signature Script Address : Type 0}
    (lib : Crates PublicKey Signature Script Address) (dongle : Trait H PublicKey Script)
    (keyed : Keyed lib dongle) (network : Network) (account : ℕ) where
  -- What one more blank entry makes of the blocks.
  abbrev pushed : List (List ℕ) → H → List (List ℕ)
  pushed blocks h =
      blocks ++ sealed_block lib dongle keyed network account (length blocks) blank h ∷ []

  abbrev after_push : List (List ℕ) → H → H
  after_push blocks h =
      (encrypt lib dongle network account (length blocks) blank (replicate 352 0) h).1

  push_blank_lem :
      (blocks : List (List ℕ)) (h : H)
      → push_blank lib dongle (length blocks) (wallet lib dongle keyed network account blocks, h)
        ≡ (ok tt, (wallet lib dongle keyed network account (pushed blocks h), after_push blocks h))
  unfolding push_blank
  push_blank_lem blocks h = rw (
      encrypt_lem lib dongle keyed network account (length blocks) blank (replicate 352 0) h refl
        refl)

  pushed_whole :
      (blocks : List (List ℕ)) (h : H) → All IsBlock blocks → All IsBlock (pushed blocks h)
  pushed_whole blocks h whole =
      All-append IsBlock blocks
        (sealed_block lib dongle keyed network account (length blocks) blank h ∷ []) whole
        (length-sealed_block lib dongle keyed network account (length blocks) blank h refl, tt)

  pushed_opened :
      (blocks : List (List ℕ)) (h : H)
      → open_all lib dongle keyed network account 0 (pushed blocks h)
        ≡ open_all lib dongle keyed network account 0 blocks ++ blank ∷ []
  pushed_opened blocks h =
      let block : List ℕ = sealed_block lib dongle keyed network account (length blocks) blank h in
      open_all-push lib dongle keyed network account 0 blocks block
      ∙ ap
          (λ k.
            open_all lib dongle keyed network account 0 blocks
            ++ open_block lib dongle keyed network account k block ∷ [])
          (omega arith)
      ∙ ap (λ t. open_all lib dongle keyed network account 0 blocks ++ t ∷ [])
          (open-sealed_block lib dongle keyed network account (length blocks) blank h refl)

  grown :
      (n : ℕ) (blocks : List (List ℕ)) (h : H)
      → open_all lib dongle keyed network account 0 (pushed blocks h) ++ replicate n blank
        ≡ open_all lib dongle keyed network account 0 blocks ++ replicate (suc n) blank
  grown n blocks h =
      ap (λ t. t ++ replicate n blank) (pushed_opened blocks h)
      ∙ append_assoc (open_all lib dongle keyed network account 0 blocks) (blank ∷ [])
          (replicate n blank)

  extend_loop_lem :
      (n i : ℕ) (blocks : List (List ℕ)) (h : H)
      → All IsBlock blocks
      → i ≡ length blocks
      → Leaves lib dongle keyed network account
          (extend_loop lib dongle i n (wallet lib dongle keyed network account blocks, h))
          tt
          (open_all lib dongle keyed network account 0 blocks ++ replicate n blank)
  unfolding extend_loop
  extend_loop_lem zero i blocks h whole e = (
    refl,
    record { blocks = blocks; is_wallet = refl; whole = whole; opened = sym (append-nil _) },
  )
  extend_loop_lem (suc n) i blocks h whole e =
      rw (e, push_blank_lem blocks h)
        (subst
          (λ c.
            Leaves lib dongle keyed network account
              (extend_loop lib dongle (length blocks + 1) n
                (wallet lib dongle keyed network account (pushed blocks h), after_push blocks h))
              tt c)
          (grown n blocks h)
          (extend_loop_lem n (length blocks + 1) (pushed blocks h) (after_push blocks h)
            (pushed_whole blocks h whole)
            (omega (
              arith,
              length-append blocks
                  (sealed_block lib dongle keyed network account (length blocks) blank h ∷ []),
            ))))

  new_loop_lem :
      (n : ℕ) (blocks : List (List ℕ)) (h : H)
      → All IsBlock blocks
      → Leaves lib dongle keyed network account
          (new_loop lib dongle n (wallet lib dongle keyed network account blocks, h))
          tt
          (open_all lib dongle keyed network account 0 blocks ++ replicate n blank)
  unfolding new_loop
  new_loop_lem zero blocks h whole = (
    refl,
    record { blocks = blocks; is_wallet = refl; whole = whole; opened = sym (append-nil _) },
  )
  new_loop_lem (suc n) blocks h whole = rw (push_blank_lem blocks h) (
      subst
        (λ c.
          Leaves lib dongle keyed network account
            (new_loop lib dongle n
              (wallet lib dongle keyed network account (pushed blocks h), after_push blocks h))
            tt c)
        (grown n blocks h)
        (new_loop_lem n (pushed blocks h) (after_push blocks h) (pushed_whole blocks h whole)))

  -- On an honest dongle, `new` gives a wallet of the network and account, with as many entries as
  -- asked for, all of them 336 zeros under the encryption of their places.
  pub new_lem :
      (n : ℕ) (h : H)
      → (w : EncryptedWallet) × ((new lib dongle network account n h).0 ≡ ok w)
        × Holds lib dongle keyed network account w (replicate n blank)
  unfolding new
  new_lem n h =
      let h2 : H = (dongle.set_network network h).1 in
      let start : EncryptedWallet = wallet lib dongle keyed network account [] in
      let done_ = new_loop_lem n [] h2 tt in
      ((new_loop lib dongle n (start, h2)).1.0, rw (keyed.networks network h, done_.0), done_.1)

  extend_blocks :
      (blocks : List (List ℕ)) (n : ℕ) (h : H)
      → All IsBlock blocks
      → Leaves lib dongle keyed network account
          (extend lib dongle n (wallet lib dongle keyed network account blocks, h))
          tt
          (open_all lib dongle keyed network account 0 blocks
            ++ replicate (n - length blocks) blank)
  unfolding extend
  extend_blocks blocks n h whole = elim (Bool-cases (leb n (length blocks))) [
    | inl e ↦
        (let none_left : n - length blocks ≡ 0 = ground arith in
          rw (e, none_left)
            (
              refl,
              record {
                blocks = blocks;
                is_wallet = refl;
                whole = whole;
                opened = sym (append-nil _);
              },
            ))
    | inr e ↦ rw e (extend_loop_lem (n - length blocks) (length blocks) blocks h whole refl)
  ]

  -- On an honest dongle, for a wallet of whole blocks: `extend` succeeds, and appends entries of 336
  -- zeros up to the given number of entries; it changes no entry, and nothing when there are as many.
  pub extend_lem :
      (w : EncryptedWallet) (contents : List (List ℕ)) (n : ℕ) (h : H)
      → Holds lib dongle keyed network account w contents
      → Leaves lib dongle keyed network account
          (extend lib dongle n (w, h))
          tt
          (contents ++ replicate (n - length contents) blank)
  extend_lem w contents n h holds =
      let blocks : List (List ℕ) = holds.blocks in
      let size : length blocks ≡ length contents =
        sym (length-open_all lib dongle keyed network account 0 blocks) ∙ ap length holds.opened in
      subst
        (λ t.
          Leaves lib dongle keyed network account (extend lib dongle n (t, h)) tt
            (contents ++ replicate (n - length contents) blank))
        (sym holds.is_wallet)
        (subst
          (λ c.
            Leaves lib dongle keyed network account
              (extend lib dongle n (wallet lib dongle keyed network account blocks, h)) tt c)
          (ap₂ (λ c k. c ++ replicate (n - k) blank) holds.opened size)
          (extend_blocks blocks n h holds.whole))
