-- ===== src/Spend.antt =====
-- src/spend.rs: the structures. Scripts are those of the bitcoin crate.
use icebox.Prelude.{ℕ, List}
use icebox.Bitcoin.{TxIn, TxOut}

pub record Input (Script : Type 0) : Type 0 where
  pub index : ℕ
  pub trusted_input : List ℕ
  pub script_pubkey : Script
  pub txin : TxIn Script

pub record Spend (Script : Type 0) : Type 0 where
  pub input : List (Input Script)
  pub change_path : List ℕ
  pub change_vout : ℕ
  pub change_amount : ℕ
  pub output : List (TxOut Script)
