-- ===== src/Wallet/Crates.antt =====
-- What the wallet uses of other crates: AES in counter mode and SHA-256 of rust-crypto, addresses,
-- scripts and transaction ids of the bitcoin crate, verification of secp256k1, and strings. A
-- `String` is its UTF-8 bytes.
use icebox.Prelude.{ℕ, Bool, List}
use icebox.Outcome.{Foreign}
use icebox.Bitcoin.{Transaction}
use icebox.Signature.{Secp}

pub record Crates (PublicKey Signature Script Address : Type 0) : Type 0 where
  -- `aes::ctr(KeySize256, key, iv)` and `process`.
  pub aes_ctr : List ℕ → List ℕ → List ℕ → List ℕ
  pub sha256 : List ℕ → List ℕ
  pub secp : Secp Signature
  -- `Message::from_slice(hash)` of 32 bytes, and `verify(&msg, &sig, &key).is_ok()`.
  pub verify : List ℕ → Signature → PublicKey → Bool
  pub from_utf8 : List ℕ → Foreign (List ℕ)
  -- `Address::from_str`
  pub from_str : List ℕ → Foreign Address
  pub script_pubkey : Address → Script
  pub script_eq : Script → Script → Bool
  pub empty_script : Script
  pub txid : Transaction Script → List ℕ
  -- `format!("{}", hash)`
  pub format_hash : List ℕ → List ℕ
  pub serialize_key : PublicKey → List ℕ
  -- `SigHashType::All`
  pub sighash_all : ℕ
  -- `Builder::new().push_slice(a).push_slice(b).into_script()`
  pub push_slices : List ℕ → List ℕ → Script

-- src/util.rs: `hash_sha256`.
abbrev pub hash_sha256 :
    {PublicKey Signature Script Address : Type 0}
    → Crates PublicKey Signature Script Address
    → List ℕ
    → List ℕ
hash_sha256 lib input = lib.sha256 input
