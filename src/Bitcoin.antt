-- ===== src/Bitcoin.antt =====
-- What icebox uses of the bitcoin crate: the fields of its transactions but the witness, which is
-- never encoded for the dongle, and its consensus encoding, which is a parameter. A `Sha256dHash` is
-- its 32 bytes; a script is opaque.
use icebox.Prelude.{ℕ, List}

pub record OutPoint : Type 0 where
  pub txid : List ℕ
  pub vout : ℕ

pub record TxIn (Script : Type 0) : Type 0 where
  pub previous_output : OutPoint
  pub script_sig : Script
  pub sequence : ℕ

pub record TxOut (Script : Type 0) : Type 0 where
  pub value : ℕ
  pub script_pubkey : Script

pub record Transaction (Script : Type 0) : Type 0 where
  pub version : ℕ
  pub lock_time : ℕ
  pub input : List (TxIn Script)
  pub output : List (TxOut Script)

-- `consensus_encode` at the types that icebox encodes.
pub record Consensus (Script : Type 0) : Type 0 where
  pub encode_u32 : ℕ → List ℕ
  pub encode_u64 : ℕ → List ℕ
  pub encode_var_int : ℕ → List ℕ
  pub encode_txid : List ℕ → List ℕ
  pub encode_script : Script → List ℕ
  pub empty_script : Script
