-- ===== src/Wallet/Put.antt =====
-- src/wallet.rs: `self.entries[index] = entry.sign_and_encrypt(..)?` against the content of the wallet.
use icebox.Prelude.{ℕ, ◌<◌, ◌≡◌, refl, ap, ◌∙◌, lt→ltb, List, length, set, All, All-set, arith}
use icebox.Outcome.{ok}
use icebox.Message.CoinVersions.{Network}
use icebox.Dongle.Trait.{Trait}
use icebox.Wallet.Crates.{Crates}
use icebox.Wallet.Change.{assign_entry}
use icebox.Wallet.Honest.{Keyed, open_block, sealed_block, length-sealed_block, open-sealed_block}
use icebox.Wallet.Contents.{IsBlock, open_all, wallet, Holds, open_all-set}

module _ {H PublicKey Signature Script Address : Type 0}
    (lib : Crates PublicKey Signature Script Address) (dongle : Trait H PublicKey Script)
    (keyed : Keyed lib dongle) (network : Network) (account : ℕ) where
  pub assign_entry_lem :
      (i : ℕ) (blocks : List (List ℕ)) (block : List ℕ) (h : H)
      → i < length blocks
      → assign_entry i block (wallet lib dongle keyed network account blocks, h)
        ≡ (ok tt, (wallet lib dongle keyed network account (set blocks i block), h))
  assign_entry_lem i blocks block h inside = rw (lt→ltb i (length blocks) inside)

  -- A wallet in which one block was replaced.
  pub put_Holds :
      (i : ℕ) (blocks contents : List (List ℕ)) (bytes : List ℕ) (h : H)
      → length bytes ≡ 336
      → All IsBlock blocks
      → open_all lib dongle keyed network account 0 blocks ≡ contents
      → Holds lib dongle keyed network account
          (wallet lib dongle keyed network account
            (set blocks i (sealed_block lib dongle keyed network account i bytes h)))
          (set contents i bytes)
  put_Holds i blocks contents bytes h size whole opened =
      let block : List ℕ = sealed_block lib dongle keyed network account i bytes h in
      record {
        blocks = set blocks i block;
        is_wallet = refl;
        whole =
            All-set IsBlock blocks i block whole
              (length-sealed_block lib dongle keyed network account i bytes h size);
        opened =
            open_all-set lib dongle keyed network account 0 i blocks block
            ∙ ap
                (λ k.
                  set (open_all lib dongle keyed network account 0 blocks) i
                    (open_block lib dongle keyed network account k block))
                (omega arith)
            ∙ ap (set (open_all lib dongle keyed network account 0 blocks) i)
                (open-sealed_block lib dongle keyed network account i bytes h size)
            ∙ ap (λ c. set c i bytes) opened;
      }
