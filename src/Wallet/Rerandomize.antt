-- ===== src/Wallet/Rerandomize.antt =====
-- src/wallet.rs: `rerandomize` against the content of the wallet.
use icebox.Prelude.{
  ℕ, zero, suc, ◌+◌, ◌<◌, ◌≡◌, refl, ap, sym, subst, ◌∙◌, false, lt→ltb, List, [], length,
  length-set, get_or, set, set_same, All, All-set, All-inside, All-take-set, slice, take, take_all,
  take-append_exact, arith,
}
use icebox.Outcome.{Outcome, ok, index_ok}
use icebox.Message.CoinVersions.{Network}
use icebox.Dongle.Trait.{Trait}
use icebox.Wallet.Crates.{Crates}
use icebox.Wallet.Cipher.{encrypt, decrypt}
use icebox.Wallet.Store.{EncryptedWallet}
use icebox.Wallet.Change.{rerandomize_from, rerandomize}
use icebox.Wallet.Honest.{
  Keyed, aes_path, open_block, sealed_block, encrypt_lem, decrypt_lem, length-sealed_block,
  length-open_block, open-sealed_block,
}
use icebox.Wallet.Contents.{IsBlock, open_all, wallet, Holds, Leaves, open_all-set, get_or-open_all}

module _ {H PublicKey Signature Script Address : Type 0}
    (lib : Crates PublicKey Signature Script Address) (dongle : Trait H PublicKey Script)
    (keyed : Keyed lib dongle) (network : Network) (account : ℕ) where
  -- The block's first 16 bytes are what the dongle answered to a request for as many random bytes.
  abbrev pub IsFresh : List ℕ → Type 0
  IsFresh block = (h : H) × ((dongle.get_random 16 h).0 ≡ ok (slice 0 16 block))

  sealed_block-IsFresh :
      (i : ℕ) (input : List ℕ) (h : H)
      → IsFresh (sealed_block lib dongle keyed network account i input h)
  sealed_block-IsFresh i input h =
      let h2 : H =
        (dongle.get_public_key (aes_path lib dongle keyed network account i) false h).1 in
      (
        h2,
        keyed.random h2 ∙ ap ok (sym (take-append_exact 16 (keyed.iv h2) _ (keyed.length-iv h2))),
      )

  -- Entry `i` encrypted again.
  abbrev again : ℕ → List (List ℕ) → H → List (List ℕ)
  again i blocks h =
      let block : List ℕ = get_or blocks i [] in
      set blocks i (
        sealed_block lib dongle keyed network account i
          (open_block lib dongle keyed network account i block)
          (decrypt lib dongle network account i block h).1)

  again_whole :
      (i : ℕ) (blocks : List (List ℕ)) (h : H)
      → i < length blocks
      → All IsBlock blocks
      → All IsBlock (again i blocks h)
  again_whole i blocks h inside whole =
      let block : List ℕ = get_or blocks i [] in
      All-set IsBlock blocks i _ whole (
        length-sealed_block lib dongle keyed network account i
          (open_block lib dongle keyed network account i block)
          (decrypt lib dongle network account i block h).1
          (length-open_block lib dongle keyed network account i block
            (All-inside IsBlock blocks i [] whole inside)))

  again_opened :
      (i : ℕ) (blocks : List (List ℕ)) (h : H)
      → i < length blocks
      → All IsBlock blocks
      → open_all lib dongle keyed network account 0 (again i blocks h)
        ≡ open_all lib dongle keyed network account 0 blocks
  again_opened i blocks h inside whole =
      let block : List ℕ = get_or blocks i [] in
      let plain : List ℕ = open_block lib dongle keyed network account i block in
      let all : List (List ℕ) = open_all lib dongle keyed network account 0 blocks in
      let zero_add : 0 + i ≡ i = omega arith in
      open_all-set lib dongle keyed network account 0 i blocks _
      ∙ rw zero_add (
          ap (set all i) (
            open-sealed_block lib dongle keyed network account i plain
              (decrypt lib dongle network account i block h).1
              (length-open_block lib dongle keyed network account i block
                (All-inside IsBlock blocks i [] whole inside))))
      ∙ ap (set all i) (
          sym (
            get_or-open_all lib dongle keyed network account 0 i blocks inside
            ∙ ap (λ k. open_block lib dongle keyed network account k block) zero_add))
      ∙ set_same all i []

  -- The call succeeds, and leaves a wallet with this content and with fresh blocks alone.
  abbrev pub Renews : Outcome (Unit {0}) × (EncryptedWallet × H) → List (List ℕ) → Type 0
  Renews r contents =
      Leaves lib dongle keyed network account r tt contents × All IsFresh r.1.0.entries

  rerandomize_from_lem :
      (n i : ℕ) (blocks : List (List ℕ)) (h : H)
      → All IsBlock blocks
      → All IsFresh (take i blocks)
      → i + n ≡ length blocks
      → Renews
          (rerandomize_from lib dongle i n (wallet lib dongle keyed network account blocks, h))
          (open_all lib dongle keyed network account 0 blocks)
  unfolding rerandomize_from
  rerandomize_from_lem zero i blocks h whole fresh e = (
    (refl, record { blocks = blocks; is_wallet = refl; whole = whole; opened = refl }),
    subst (All IsFresh) (take_all i blocks (omega arith)) fresh,
  )
  rerandomize_from_lem (suc n) i blocks h whole fresh e =
      let block : List ℕ = get_or blocks i [] in
      let size : length block ≡ 352 = All-inside IsBlock blocks i [] whole (omega arith) in
      let plain : List ℕ = open_block lib dongle keyed network account i block in
      let h1 : H = (decrypt lib dongle network account i block h).1 in
      let same : length (again i blocks h) ≡ length blocks = length-set blocks i _ in
      rw
        (
          index_ok blocks i [] (omega arith),
          decrypt_lem lib dongle keyed network account i block h size,
          encrypt_lem lib dongle keyed network account i plain block h1
              (length-open_block lib dongle keyed network account i block size) size,
          lt→ltb i (length blocks) (omega arith),
        )
        (subst
          (λ c.
            Renews
              (rerandomize_from lib dongle (i + 1) n (
                wallet lib dongle keyed network account (again i blocks h),
                (encrypt lib dongle network account i plain block h1).1,
              ))
              c)
          (again_opened i blocks h (omega arith) whole)
          (rerandomize_from_lem n (i + 1) (again i blocks h)
            (encrypt lib dongle network account i plain block h1).1
            (again_whole i blocks h (omega arith) whole)
            (All-take-set IsFresh blocks i
              (sealed_block lib dongle keyed network account i plain h1) fresh
              (sealed_block-IsFresh i plain h1) (omega arith))
            (omega (arith, same))))

  -- On an honest dongle, for a wallet of whole blocks: `rerandomize` succeeds; the wallet's network,
  -- account and the content of every entry stay as they are; and every block begins with 16 bytes that
  -- the dongle answered to a request for random bytes.
  pub rerandomize_lem :
      (w : EncryptedWallet) (contents : List (List ℕ)) (h : H)
      → Holds lib dongle keyed network account w contents
      → Leaves lib dongle keyed network account (rerandomize lib dongle (w, h)) tt contents
        × All IsFresh (rerandomize lib dongle (w, h)).1.0.entries
  unfolding rerandomize
  rerandomize_lem w contents h holds =
      let blocks : List (List ℕ) = holds.blocks in
      subst (λ t. Renews (rerandomize_from lib dongle 0 (length t.entries) (t, h)) contents)
        (sym holds.is_wallet)
        (subst
          (λ c.
            Renews
              (rerandomize_from lib dongle 0 (length blocks)
                (wallet lib dongle keyed network account blocks, h))
              c)
          holds.opened
          (rerandomize_from_lem (length blocks) 0 blocks h holds.whole tt (omega arith)))
