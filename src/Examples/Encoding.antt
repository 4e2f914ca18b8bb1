-- ===== src/Examples/Encoding.antt =====
-- The encoders on a small transaction and a small spend.
use icebox.Prelude.{ℕ, ◌/◌, ◌%◌, ◌≡◌, refl, List, [], ◌∷◌, ◌++◌, length, arith}
use icebox.Cutpoints.{
  encode_spend_inputs_with_cutpoints, encode_spend_outputs_with_cutpoints,
  encode_transaction_with_cutpoints,
}
use icebox.Bitcoin.{TxIn, TxOut, Transaction, Consensus}
use icebox.Spend.{Spend}
use icebox.Cutpoints.Whole.{
  Yields, transaction_bytes, spend_inputs_bytes, spend_outputs_bytes, encode_transaction_lem,
  encode_spend_inputs_lem, encode_spend_outputs_lem,
}

abbrev pub le_u32 : ℕ → List ℕ
le_u32 n = (n % 256) ∷ (n / 256 % 256) ∷ (n / 65536 % 256) ∷ (n / 16777216 % 256) ∷ []

-- Little-endian numbers, and scripts of fewer than 253 bytes.
abbrev pub plain : Consensus (List ℕ)
plain = record {
  encode_u32 = le_u32;
  encode_u64 = λ n. le_u32 n ++ le_u32 (n / 4294967296);
  encode_var_int = λ n. n ∷ [];
  encode_txid = λ t. t;
  encode_script = λ s. length s ∷ s;
  empty_script = [];
}

pub plain-u32 : (n : ℕ) → length (plain.encode_u32 n) ≡ 4
plain-u32 n = refl

abbrev pub txin : TxIn (List ℕ)
txin = record {
  previous_output = record { txid = 1 ∷ 2 ∷ 3 ∷ []; vout = 1 };
  script_sig = 0x51 ∷ [];
  sequence = 0xfffffffe;
}

abbrev pub txout : TxOut (List ℕ)
txout = record { value = 5000; script_pubkey = 0xa9 ∷ 0x87 ∷ [] }

abbrev pub tx : Transaction (List ℕ)
tx = record { version = 2; lock_time = 7; input = txin ∷ []; output = txout ∷ txout ∷ [] }

abbrev pub spend : Spend (List ℕ)
spend = record {
  input =
      record { index = 4; trusted_input = 9 ∷ 8 ∷ []; script_pubkey = 0x76 ∷ []; txin = txin } ∷ [];
  change_path = 44 ∷ 0 ∷ [];
  change_vout = 0;
  change_amount = 1;
  output = txout ∷ [];
}

encode_transaction_example :
    Yields 251 (transaction_bytes plain tx) (encode_transaction_with_cutpoints plain 251 tx)
encode_transaction_example = encode_transaction_lem plain 251 (omega arith) tx

encode_spend_inputs_example :
    Yields 4 (spend_inputs_bytes plain spend 4) (encode_spend_inputs_with_cutpoints plain 4 spend 4)
encode_spend_inputs_example = encode_spend_inputs_lem plain 4 (omega arith) spend 4

encode_spend_outputs_example :
    Yields 260
      (spend_outputs_bytes plain spend)
      (encode_spend_outputs_with_cutpoints plain 260 spend)
encode_spend_outputs_example = encode_spend_outputs_lem plain 260 (omega arith) spend
