-- ===== src/Wallet/Path.antt =====
-- src/wallet.rs: `KeyPurpose` and `bip32_path`.
use icebox.Prelude.{ℕ, ◌≡◌, refl, bit_or, List, [], ◌∷◌, length}
use icebox.Message.CoinVersions.{Network}

pub data KeyPurpose : Type 0 where
  address aes_key : KeyPurpose

abbrev pub purpose_index : KeyPurpose → ℕ
purpose_index KeyPurpose.address = 2
purpose_index KeyPurpose.aes_key = 3

abbrev pub coin_type : Network → ℕ
coin_type Network.bitcoin = 0x80000000
coin_type Network.testnet = 0x80000001
coin_type Network.regtest = 0x80000001

-- `0x80000000 | n` on a u32.
abbrev pub hardened : ℕ → ℕ
hardened n = bit_or 0x80000000 n

unfoldable pub bip32_path : Network → ℕ → KeyPurpose → ℕ → List ℕ
bip32_path network account purpose index =
    0x8000002c
    ∷ coin_type network
    ∷ hardened account
    ∷ hardened (purpose_index purpose)
    ∷ hardened index
    ∷ []

pub length-bip32_path :
    (network : Network) (account : ℕ) (purpose : KeyPurpose) (index : ℕ)
    → length (bip32_path network account purpose index) ≡ 5
unfolding bip32_path
length-bip32_path network account purpose index = refl
