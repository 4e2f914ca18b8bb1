-- ===== src/Wallet/Pick.antt =====
-- src/wallet.rs: `get_inputs_and_change`, what it does with one entry and at the end; `Spend` is
-- the argument that it changes. src/spend.rs: `Input::from_entry`.
use icebox.Prelude.{
  ℕ, ◌+◌, ◌-◌, ◌*◌, ◌/◌, ◌%◌, ◌^◌, ltb, leb, not, Bool, true, false, List, [], ◌∷◌, ◌++◌, length,
  take, replicate, if◌then◌else◌,
}
use icebox.Error.{insufficient_funds, wallet_full}
use icebox.Outcome.{Outcome, ok, err, panic, fail_if, checked_sub, ◌>>=◌}
use icebox.Constants.{change_dust}
use icebox.Bitcoin.{TxOut}
use icebox.Spend.{Spend, Input}
use icebox.Wallet.Crates.{Crates}
use icebox.Wallet.Entry.{Entry, EntryState}

-- `a + b` and `a * b` on u64.
abbrev pub add_u64 : ℕ → ℕ → Outcome ℕ
add_u64 a b = if ltb (a + b) (2 ^ 64) then ok (a + b) else panic

abbrev pub mul_u64 : ℕ → ℕ → Outcome ℕ
mul_u64 a b = if ltb (a * b) (2 ^ 64) then ok (a * b) else panic

-- The local variables of the loop.
pub record Found : Type 0 where
  pub found_amount : ℕ
  pub found_change : Bool
  pub size_bytes : ℕ

-- `total_amount + (size_bytes * fee_rate / 1000)`
unfoldable pub needed : ℕ → ℕ → ℕ → Outcome ℕ
needed fee_rate total_amount size_bytes = do
  fee ← mul_u64 size_bytes fee_rate
  add_u64 total_amount (fee / 1000)

module _ {Script : Type 0} where
  unfoldable pub sum_outputs : ℕ → List (TxOut Script) → Outcome ℕ
  sum_outputs total [] = ok total
  sum_outputs total (out ∷ outs) = do total ← add_u64 total out.value; sum_outputs total outs

  -- `outputs.last_mut().unwrap().value = value`
  unfoldable pub set_last_value : ℕ → List (TxOut Script) → Outcome (List (TxOut Script))
  set_last_value value [] = panic
  set_last_value value (out ∷ []) = ok (record out { value = value } ∷ [])
  set_last_value value (out ∷ out2 ∷ outs) = do
    rest ← set_last_value value (out2 ∷ outs)
    ok (out ∷ rest)

  -- `(13 + ((spend.output.len() + 1) * 34)) as u64`
  abbrev pub base_size : Spend Script → ℕ
  base_size spend = 13 + (length spend.output + 1) * 34

  -- What is kept of `spend` when the result is an error.
  abbrev pub and_spend : Spend Script → Outcome (Spend Script) → Outcome (Unit {0}) × Spend Script
  and_spend spend (ok new) = (ok tt, new)
  and_spend spend (Outcome.err e) = (err e, spend)
  and_spend spend Outcome.panic = (panic, spend)
  and_spend spend Outcome.diverge = (Outcome.diverge, spend)

  -- The change is below the dust limit.
  abbrev pub without_change : Bool → Spend Script → Spend Script
  without_change found_change spend = record spend {
    change_amount = 0;
    change_path = replicate 5 0;
    output = if found_change then take (length spend.output - 1) spend.output else spend.output;
  }

  unfoldable pub with_change : ℕ → Spend Script → Outcome (Spend Script)
  with_change computed_change spend = do
    output ← set_last_value computed_change spend.output
    vout ← checked_sub (length output % 2 ^ 32) 1
    ok (record spend { change_amount = computed_change; output = output; change_vout = vout })

  -- The change is written before the missing entry is noticed.
  abbrev pub need_change :
      Bool → Outcome (Unit {0}) × Spend Script → Outcome (Unit {0}) × Spend Script
  need_change found_change (ok _, spend) = (fail_if (not found_change) wallet_full, spend)
  need_change found_change (Outcome.err e, spend) = (err e, spend)
  need_change found_change (Outcome.panic, spend) = (panic, spend)
  need_change found_change (Outcome.diverge, spend) = (Outcome.diverge, spend)

  abbrev pub settle : Bool → ℕ → Spend Script → Outcome (Unit {0}) × Spend Script
  settle found_change computed_change spend =
      if ltb computed_change change_dust
      then (ok tt, without_change found_change spend)
      else need_change found_change (and_spend spend (with_change computed_change spend))

  abbrev pub settle_from : Found → Outcome ℕ → Spend Script → Outcome (Unit {0}) × Spend Script
  settle_from found (ok total_needed) spend =
      if ltb found.found_amount total_needed
      then (err (insufficient_funds found.found_amount total_needed), spend)
      else settle found.found_change (found.found_amount - total_needed) spend
  settle_from found (Outcome.err e) spend = (err e, spend)
  settle_from found Outcome.panic spend = (panic, spend)
  settle_from found Outcome.diverge spend = (Outcome.diverge, spend)

  -- What follows the loop.
  unfoldable pub finish : ℕ → ℕ → Found → Spend Script → Outcome (Unit {0}) × Spend Script
  finish fee_rate total_amount found spend =
      settle_from found (needed fee_rate total_amount found.size_bytes) spend

module _ {PublicKey Signature Script Address : Type 0}
    (lib : Crates PublicKey Signature Script Address) where
  unfoldable pub from_entry : Entry Address → Input Script
  from_entry entry = record {
    index = entry.index;
    trusted_input = entry.trusted_input;
    script_pubkey = lib.script_pubkey entry.address;
    txin = record {
      previous_output = record { txid = entry.txid; vout = entry.vout };
      script_sig = lib.empty_script;
      sequence = 0xfffffffe;
    };
  }

  -- The arm `Unused`: the first such entry is for the change. `path` is that of the entry.
  unfoldable pub pick_change :
      Bool → List ℕ → Entry Address → Found → Spend Script → Outcome (Found × Spend Script)
  pick_change true path entry found spend = ok (found, spend)
  pick_change false path entry found spend = ok (
    record found { found_change = true },
    record spend {
      output =
          spend.output
          ++ record { script_pubkey = lib.script_pubkey entry.address; value = 0 } ∷ [];
      change_path = path;
    },
  )

  -- The arm `Received` of an entry that is not spent, by `found_amount < ...`.
  unfoldable pub pick_input :
      Bool → Entry Address → Found → Spend Script → Outcome (Found × Spend Script)
  pick_input true entry found spend = do
    size_bytes ← add_u64 found.size_bytes 150
    found_amount ← add_u64 found.found_amount entry.amount
    ok (
      record found { found_amount = found_amount; size_bytes = size_bytes },
      record spend { input = spend.input ++ from_entry entry ∷ [] },
    )
  pick_input false entry found spend = ok (found, spend)

  unfoldable pub pick_received :
      Bool → ℕ → ℕ → Entry Address → Found → Spend Script → Outcome (Found × Spend Script)
  pick_received true fee_rate total_amount entry found spend = ok (found, spend)
  pick_received false fee_rate total_amount entry found spend = do
    wanted ← needed fee_rate total_amount found.size_bytes
    pick_input (ltb found.found_amount wanted) entry found spend

  unfoldable pub pick_by :
      EntryState
      → ℕ
      → ℕ
      → List ℕ
      → Entry Address
      → Found
      → Spend Script
      → Outcome (Found × Spend Script)
  pick_by EntryState.unused fee_rate total_amount path entry found spend =
      pick_change found.found_change path entry found spend
  pick_by EntryState.invalid fee_rate total_amount path entry found spend = ok (found, spend)
  pick_by EntryState.valid fee_rate total_amount path entry found spend = ok (found, spend)
  pick_by EntryState.received fee_rate total_amount path entry found spend =
      pick_received entry.spent fee_rate total_amount entry found spend

  -- The body of the loop for one entry, up to the early quit.
  unfoldable pub pick :
      ℕ → ℕ → List ℕ → Entry Address → Found → Spend Script → Outcome (Found × Spend Script)
  pick fee_rate total_amount path entry found spend =
      pick_by entry.state fee_rate total_amount path entry found spend

-- `found_change && found_amount >= ...`
unfoldable pub enough : ℕ → ℕ → Found → Outcome Bool
enough fee_rate total_amount found =
    if found.found_change
    then (do
      wanted ← needed fee_rate total_amount found.size_bytes
      ok (leb wanted found.found_amount))
    else ok false
