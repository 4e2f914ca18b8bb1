-- ===== src/Cutpoints.antt =====
-- src/util.rs: encodings with the positions at which they may be cut.

pub mod Gaps
pub mod First
pub mod Whole
use icebox.Prelude.{
  ℕ, zero, suc, ◌+◌, ◌%◌, ltb, ◌==◌, List, [], ◌∷◌, ◌++◌, Option, none, some, length, if◌then◌else◌,
}
use icebox.Outcome.{Outcome, ok, diverge, ◌>>=◌}
use icebox.Bitcoin.{TxIn, TxOut, Transaction, Consensus}
use icebox.Spend.{Input, Spend}
use icebox.Message.Status.{pop, unwrap}

-- The two vectors that the encoders write to.
pub record Encoding : Type 0 where
  pub buf : List ℕ
  pub cuts : List ℕ

-- `vec![]` and `vec![0]`
abbrev pub start : Encoding
start = record { buf = []; cuts = 0 ∷ [] }

-- `while buf.len() > last_cut + max_size { cuts.push(last_cut + max_size); ... }`, on fuel.
unfoldable pub cut_loop : ℕ → ℕ → ℕ → ℕ → List ℕ → Outcome (List ℕ)
cut_loop zero len last_cut max_size cuts =
    if ltb (last_cut + max_size) len then diverge else ok cuts
cut_loop (suc fuel) len last_cut max_size cuts =
    let rest =
      cut_loop fuel len (last_cut + max_size) max_size (cuts ++ (last_cut + max_size) ∷ []) in
    if ltb (last_cut + max_size) len then rest else ok cuts

-- `bytes` is the consensus encoding of the data. Where `max_size` is positive, a round of the loop
-- moves the last cut on, so the length of the buffer is fuel enough.
unfoldable pub encode_marking_cutpoints : List ℕ → ℕ → Encoding → Outcome Encoding
unfolding unwrap
encode_marking_cutpoints bytes max_size s = do
  let buf = s.buf ++ bytes
  (last_cut, _) ← unwrap (pop s.cuts)
  cuts ← cut_loop (length buf) (length buf) last_cut max_size s.cuts
  ok (record { buf = buf; cuts = cuts ++ length buf ∷ [] })

-- `ret_cuts.pop();`
unfoldable pub pop_cut : Encoding → Outcome Encoding
pop_cut s = ok (elim (pop s.cuts) [ none ↦ s | some (_, cuts) ↦ record s { cuts = cuts } ])

-- `ret_ser_tx.push(0x01)`, the length of the trusted input as a u8, and the trusted input.
abbrev pub push_trusted_input : List ℕ → Encoding → Encoding
push_trusted_input t s = record s { buf = s.buf ++ (0x01 ∷ (length t % 256) ∷ t) }

-- `for x in xs { body }`
unfoldable pub for_each :
    {A : Type 0} → (A → Encoding → Outcome Encoding) → List A → Encoding → Outcome Encoding
for_each body [] s = ok s
for_each body (x ∷ xs) s = do s ← body x s; for_each body xs s

module _ {Script : Type 0} (consensus : Consensus Script) (max_size : ℕ) where
  open consensus use {
    encode_u32, encode_u64, encode_var_int, encode_txid, encode_script, empty_script,
  }

  abbrev pub mark : List ℕ → Encoding → Outcome Encoding
  mark bytes = encode_marking_cutpoints bytes max_size

  unfoldable pub encode_tx_input : TxIn Script → Encoding → Outcome Encoding
  encode_tx_input i s = do
    s ← mark (encode_txid i.previous_output.txid) s
    s ← pop_cut s
    s ← mark (encode_u32 i.previous_output.vout) s
    s ← pop_cut s
    s ← mark (encode_script i.script_sig) s
    mark (encode_u32 i.sequence) s

  unfoldable pub encode_tx_output : TxOut Script → Encoding → Outcome Encoding
  encode_tx_output o s = do
    s ← mark (encode_u64 o.value) s
    s ← pop_cut s
    mark (encode_script o.script_pubkey) s

  unfoldable pub encode_transaction_with_cutpoints : Transaction Script → Outcome Encoding
  encode_transaction_with_cutpoints tx = do
    s ← mark (encode_u32 tx.version) start
    s ← mark (encode_var_int (length tx.input)) s
    s ← for_each encode_tx_input tx.input s
    s ← mark (encode_var_int (length tx.output)) s
    s ← for_each encode_tx_output tx.output s
    mark (encode_u32 tx.lock_time) s

  unfoldable pub encode_spend_input : ℕ → Input Script → Encoding → Outcome Encoding
  encode_spend_input index i s = do
    s ←
        mark (encode_script (if i.index == index then i.script_pubkey else empty_script))
          (push_trusted_input i.trusted_input s)
    mark (encode_u32 i.txin.sequence) s

  unfoldable pub encode_spend_inputs_with_cutpoints : Spend Script → ℕ → Outcome Encoding
  encode_spend_inputs_with_cutpoints spend index = do
    s ← mark (encode_u32 1) start
    s ← mark (encode_var_int (length spend.input)) s
    for_each (encode_spend_input index) spend.input s

  unfoldable pub encode_spend_outputs_with_cutpoints : Spend Script → Outcome Encoding
  encode_spend_outputs_with_cutpoints spend = do
    s ← mark (encode_var_int (length spend.output)) start
    for_each encode_tx_output spend.output s
