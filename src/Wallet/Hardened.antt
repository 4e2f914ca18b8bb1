-- ===== src/Wallet/Hardened.antt =====
-- src/wallet.rs: the path that `bip32_path` makes, with its hardened indices.
use Prim.Native.Nat.{max, digits, bit_or-bitwise}
use icebox.Prelude.{
  ℕ, zero, suc, ◌+◌, ◌*◌, ◌/◌, ◌%◌, ◌^◌, ◌≤◌, ◌<◌, ◌≡◌, refl, ap, ◌∙◌, length, get_or, All, arith,
}
use icebox.Message.CoinVersions.{Network}
use icebox.Wallet.Path.{KeyPurpose, purpose_index, coin_type, hardened, bip32_path}

abbrev or_digits : ℕ → ℕ → ℕ → ℕ
or_digits n a b = digits (λ b. b) max n a b

or_step :
    (n a b : ℕ)
    → 0 < a
    → or_digits (suc n) a b ≡ or_digits n (a / 2) (b / 2) * 2 + max (a % 2) (b % 2)
or_step n zero b h = absurd (omega arith)
or_step n (suc a) b h = refl

or_none : (n b : ℕ) → or_digits n 0 b ≡ b
or_none zero b = refl
or_none (suc n) b = refl

power_pos : (k : ℕ) → 0 < 2 ^ k
power_pos zero = omega arith
power_pos (suc k) = omega (arith, power_pos k)

-- A power of two above the other number.
or_power : (k n b : ℕ) → k < n → b < 2 ^ k → or_digits n (2 ^ k) b ≡ 2 ^ k + b
or_power k zero b h small = absurd (omega arith)
or_power zero (suc n) b h small = omega (arith, or_step n 1 b (omega arith), or_none n (b / 2))
or_power (suc k) (suc n) b h small =
    let double : 2 ^ suc k ≡ 2 ^ k * 2 = omega arith in
    let half : 2 ^ suc k / 2 ≡ 2 ^ k = omega arith in
    let deeper : or_digits n (2 ^ k) (b / 2) ≡ 2 ^ k + b / 2 =
      or_power k n (b / 2) (omega arith) (omega arith) in
    or_step n (2 ^ suc k) b (power_pos (suc k)) ∙ rw (half, deeper) (omega arith)

pub hardened_lem : (n : ℕ) → n < 2 ^ 31 → hardened n ≡ 0x80000000 + n
hardened_lem n small = bit_or-bitwise 0x80000000 n ∙ or_power 31 0x80000000 n (omega arith) small

-- A hardened index of 32 bits.
abbrev pub IsHardened : ℕ → Type 0
IsHardened n = (2 ^ 31 ≤ n) × (n < 2 ^ 32)

coin_type-IsHardened : (network : Network) → IsHardened (coin_type network)
coin_type-IsHardened Network.bitcoin = (omega arith, omega arith)
coin_type-IsHardened Network.testnet = (omega arith, omega arith)
coin_type-IsHardened Network.regtest = (omega arith, omega arith)

purpose_index_small : (purpose : KeyPurpose) → purpose_index purpose < 2 ^ 31
purpose_index_small KeyPurpose.address = omega arith
purpose_index_small KeyPurpose.aes_key = omega arith

hardened-IsHardened : (n : ℕ) → n < 2 ^ 31 → IsHardened (hardened n)
hardened-IsHardened n small =
    (omega (arith, hardened_lem n small), omega (arith, hardened_lem n small))

-- For an account and an index below 2 ^ 31, the path has five indices, all of them hardened and of 32
-- bits.
pub bip32_path-IsHardened :
    (network : Network) (account : ℕ) (purpose : KeyPurpose) (index : ℕ)
    → account < 2 ^ 31
    → index < 2 ^ 31
    → (length (bip32_path network account purpose index) ≡ 5)
      × All IsHardened (bip32_path network account purpose index)
unfolding bip32_path
bip32_path-IsHardened network account purpose index ha hi = (
  refl,
  (
    (omega arith, omega arith),
    (
      coin_type-IsHardened network,
      (
        hardened-IsHardened account ha,
        (
          hardened-IsHardened (purpose_index purpose) (purpose_index_small purpose),
          (hardened-IsHardened index hi, tt),
        ),
      ),
    ),
  ),
)

hardened_injective : (m n : ℕ) → m < 2 ^ 31 → n < 2 ^ 31 → hardened m ≡ hardened n → m ≡ n
hardened_injective m n hm hn e = omega (arith, hardened_lem m hm, hardened_lem n hn, e)

purpose_index_injective :
    (purpose purpose2 : KeyPurpose)
    → purpose_index purpose ≡ purpose_index purpose2
    → purpose ≡ purpose2
purpose_index_injective KeyPurpose.address KeyPurpose.address e = refl
purpose_index_injective KeyPurpose.address KeyPurpose.aes_key e = absurd (omega (arith, e))
purpose_index_injective KeyPurpose.aes_key KeyPurpose.address e = absurd (omega (arith, e))
purpose_index_injective KeyPurpose.aes_key KeyPurpose.aes_key e = refl

-- For accounts and indices below 2 ^ 31, two paths are the same only if their coin types, accounts,
-- purposes and indices are.
pub bip32_path_injective :
    (network network2 : Network) (account account2 : ℕ) (purpose purpose2 : KeyPurpose)
    (index index2 : ℕ)
    → account < 2 ^ 31
    → account2 < 2 ^ 31
    → index < 2 ^ 31
    → index2 < 2 ^ 31
    → bip32_path network account purpose index ≡ bip32_path network2 account2 purpose2 index2
    → (coin_type network ≡ coin_type network2)
      × (account ≡ account2)
      × (purpose ≡ purpose2)
      × (index ≡ index2)
unfolding bip32_path
bip32_path_injective network network2 account account2 purpose purpose2 index index2 ha ha2 hi hi2
      e =
    (
      ap (λ t. get_or t 1 0) e,
      hardened_injective account account2 ha ha2 (ap (λ t. get_or t 2 0) e),
      purpose_index_injective purpose purpose2 (
          hardened_injective (purpose_index purpose) (purpose_index purpose2)
            (purpose_index_small purpose) (purpose_index_small purpose2)
            (ap (λ t. get_or t 3 0) e)),
      hardened_injective index index2 hi hi2 (ap (λ t. get_or t 4 0) e),
    )
