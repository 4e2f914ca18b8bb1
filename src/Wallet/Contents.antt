-- ===== src/Wallet/Contents.antt =====
-- src/wallet.rs: the abstract view of a wallet, the list of what its blocks hold.
use icebox.Prelude.{
  ℕ, zero, suc, ◌+◌, ◌<◌, ◌≡◌, refl, ap, ◌∙◌, List, [], ◌∷◌, ◌++◌, length, set, get_or, All, arith,
}
use icebox.Outcome.{Outcome, ok}
use icebox.Message.CoinVersions.{Network}
use icebox.Dongle.Trait.{Trait}
use icebox.Wallet.Crates.{Crates}
use icebox.Wallet.Store.{EncryptedWallet}
use icebox.Wallet.Honest.{Keyed, open_block}

abbrev pub IsBlock : List ℕ → Type 0
IsBlock block = length block ≡ 352

module _ {H PublicKey Signature Script Address : Type 0}
    (lib : Crates PublicKey Signature Script Address) (dongle : Trait H PublicKey Script)
    (keyed : Keyed lib dongle) (network : Network) (account : ℕ) where
  abbrev pub open_all : ℕ → List (List ℕ) → List (List ℕ)
  open_all i [] = []
  open_all i (block ∷ blocks) =
      open_block lib dongle keyed network account i block ∷ open_all (i + 1) blocks

  abbrev pub wallet : List (List ℕ) → EncryptedWallet
  wallet blocks = record { network = network; account = account; entries = blocks }

  -- The wallet has this network and account, whole blocks, and this content.
  pub record Holds (w : EncryptedWallet) (contents : List (List ℕ)) : Type 0 where
    pub blocks : List (List ℕ)
    pub is_wallet : w ≡ wallet blocks
    pub whole : All IsBlock blocks
    pub opened : open_all 0 blocks ≡ contents

  -- The call gives `a`, and leaves a wallet with this content.
  abbrev pub Leaves : {A : Type 0} → Outcome A × (EncryptedWallet × H) → A → List (List ℕ) → Type 0
  Leaves r a contents = (r.0 ≡ ok a) × Holds r.1.0 contents

  pub length-open_all :
      (i : ℕ) (blocks : List (List ℕ)) → length (open_all i blocks) ≡ length blocks
  length-open_all i [] = refl
  length-open_all i (block ∷ blocks) = ap suc (length-open_all (i + 1) blocks)

  pub open_all-push :
      (i : ℕ) (blocks : List (List ℕ)) (block : List ℕ)
      → open_all i (blocks ++ block ∷ [])
        ≡ open_all i blocks
          ++ open_block lib dongle keyed network account (i + length blocks) block ∷ []
  open_all-push i [] block =
      ap (λ k. open_block lib dongle keyed network account k block ∷ []) (omega arith)
  open_all-push i (b ∷ blocks) block =
      ap (λ t. open_block lib dongle keyed network account i b ∷ t)
        (open_all-push (i + 1) blocks block
          ∙ ap
              (λ k.
                open_all (i + 1) blocks ++ open_block lib dongle keyed network account k block ∷ [])
              (omega arith))

  pub open_all-set :
      (i k : ℕ) (blocks : List (List ℕ)) (block : List ℕ)
      → open_all i (set blocks k block)
        ≡ set (open_all i blocks) k (open_block lib dongle keyed network account (i + k) block)
  open_all-set i k [] block = refl
  open_all-set i zero (b ∷ blocks) block =
      ap (λ k. open_block lib dongle keyed network account k block ∷ open_all (i + 1) blocks)
        (omega arith)
  open_all-set i (suc k) (b ∷ blocks) block =
      ap (λ t. open_block lib dongle keyed network account i b ∷ t)
        (open_all-set (i + 1) k blocks block
          ∙ ap
              (λ j.
                set (open_all (i + 1) blocks) k
                  (open_block lib dongle keyed network account j block))
              (omega arith))

  pub get_or-open_all :
      (i k : ℕ) (blocks : List (List ℕ))
      → k < length blocks
      → get_or (open_all i blocks) k []
        ≡ open_block lib dongle keyed network account (i + k) (get_or blocks k [])
  get_or-open_all i k [] h = absurd (omega arith)
  get_or-open_all i zero (b ∷ blocks) h =
      ap (λ k. open_block lib dongle keyed network account k b) (omega arith)
  get_or-open_all i (suc k) (b ∷ blocks) h =
      get_or-open_all (i + 1) k blocks (omega arith)
      ∙ ap (λ j. open_block lib dongle keyed network account j (get_or blocks k [])) (omega arith)
