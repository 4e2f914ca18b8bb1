-- ===== src/Examples/WalletReads.antt =====
-- src/wallet.rs: the theorems on what is read from the wallet of two entries, and on its coins.
use icebox.Prelude.{
  ◌∙◌, ℕ, ◌^◌, ◌≡◌, ◌⊎◌, inr, refl, Bool, List, [], ◌∷◌, length, replicate, ltb, All, arith,
  if◌then◌else◌,
}
use icebox.Error.{wallet_full, entry_out_of_range}
use icebox.Outcome.{ok, err, panic, index_range, checked_sub}
use icebox.Message.CoinVersions.{Network}
use icebox.Spend.{Spend}
use icebox.Wallet.Entry.{Entry, EntryState, interpret, unused_entry}
use icebox.Wallet.Path.{bip32_path}
use icebox.Wallet.Store.{lookup, next_unused_index, get_balance}
use icebox.Wallet.Coins.{get_inputs_and_change, coins_from}
use icebox.Wallet.Pick.{
  sum_outputs, pick, pick_by, pick_change, pick_received, pick_input, needed, from_entry, enough,
  finish, with_change, set_last_value,
}
use icebox.Wallet.File.{save, load_bytes}
use icebox.Wallet.RoundTrip.{address_path, signed_bytes, reread, interpret-signed_bytes}
use icebox.Wallet.Grow.{blank}
use icebox.Wallet.SaveLoad.{loaded_network, load_bytes-save}
use icebox.Wallet.Recorded.{IsSigned, lookup-IsRecorded}
use icebox.Wallet.Lookup.{Reads, entry_at, lookup_lem}
use icebox.Wallet.NextUnused.{IsInUse, IsFirstUnused, next_unused_index-Scans}
use icebox.Wallet.Balance.{unspent, get_balance_lem}
use icebox.Wallet.Conserve.{IsUsable}
use icebox.Wallet.Settle.{Settled}
use icebox.Wallet.Spending.{select, get_inputs_and_change_lem}
use icebox.Examples.Ledger.{Queue, der, text}
use icebox.Examples.WalletParts.{
  entry-Fits, is_der, lib, dongle, idle, keyed, signing, entry, entry-Readable, contents,
  small_wallet, small_wallet-Holds,
}

-- The second entry, as it is read.
abbrev pub empty : Entry (List ℕ)
empty = record (reread lib dongle keyed Network.testnet 0 1 signing entry) {
  state = EntryState.unused;
  trusted_input = replicate 56 0;
  txid = replicate 32 0;
  vout = 0;
  amount = 0;
  date = replicate 24 0;
  blockhash = replicate 32 0;
  user = [];
  note = [];
}

is_empty : entry_at lib dongle keyed Network.testnet 0 1 blank ≡ ok empty
unfolding interpret unused_entry index_range
is_empty = refl

abbrev pub entries : List (Entry (List ℕ))
entries = reread lib dongle keyed Network.testnet 0 0 signing entry ∷ empty ∷ []

pub contents-Reads : Reads lib dongle keyed Network.testnet 0 0 contents entries
contents-Reads = (
  interpret-signed_bytes lib dongle keyed Network.testnet 0 0 signing entry idle entry-Readable,
  (is_empty, tt),
)

get_balance_example :
    (get_balance lib dongle small_wallet idle).0
    ≡ (if ltb (unspent entries) (2 ^ 64) then ok (unspent entries) else panic)
get_balance_example =
    get_balance_lem lib dongle keyed Network.testnet 0 small_wallet contents entries idle
      small_wallet-Holds contents-Reads

first-IsSigned :
    IsSigned lib dongle keyed Network.testnet 0 0
      (signed_bytes lib dongle keyed Network.testnet 0 0 signing entry idle)
      (reread lib dongle keyed Network.testnet 0 0 signing entry)
first-IsSigned = record {
  sig = replicate 64 3;
  entry = entry;
  secp_form = der;
  address = text (address_path lib dongle keyed Network.testnet 0 0);
  is_bytes = refl;
  length-sig = refl;
  fits = entry-Fits;
  dated = refl;
  secp_reads = is_der;
  is_address = refl;
  user = refl;
  note = refl;
  is_entry = refl;
}

lookup_example : (lookup lib dongle small_wallet 0 idle).0 ≡ (
    if ltb 0 (length contents)
    then ok (reread lib dongle keyed Network.testnet 0 0 signing entry)
    else err (entry_out_of_range 0))
lookup_example =
    lookup-IsRecorded lib dongle keyed Network.testnet 0 0 small_wallet contents
      (reread lib dongle keyed Network.testnet 0 0 signing entry) idle small_wallet-Holds
      (λ inside. inr first-IsSigned)

load_bytes-save_example :
    load_bytes (save small_wallet)
    ≡ ok (record small_wallet { network = loaded_network small_wallet.network })
load_bytes-save_example = load_bytes-save small_wallet (omega arith) (refl, (refl, tt))

abbrev request : Spend (List ℕ)
request = record {
  input = [];
  change_path = replicate 5 0;
  change_vout = 0;
  change_amount = 0;
  output = record { value = 30000; script_pubkey = 0x51 ∷ [] } ∷ [];
}

finds_first :
    (h : Queue)
    → (lookup lib dongle small_wallet 0 h).0
      ≡ ok (reread lib dongle keyed Network.testnet 0 0 signing entry)
finds_first h =
    lookup_lem lib dongle keyed Network.testnet 0 small_wallet contents 0 h small_wallet-Holds
    ∙ contents-Reads.0

finds_second : (h : Queue) → (lookup lib dongle small_wallet 1 h).0 ≡ ok empty
finds_second h =
    lookup_lem lib dongle keyed Network.testnet 0 small_wallet contents 1 h small_wallet-Holds
    ∙ is_empty

succeeds : (get_inputs_and_change lib dongle small_wallet 1000 (request, idle)).0 ≡ ok tt
unfolding get_inputs_and_change coins_from checked_sub sum_outputs pick pick_by pick_change
    pick_received pick_input needed from_entry enough finish with_change set_last_value bip32_path
succeeds =
    let second : Queue = (lookup lib dongle small_wallet 0 idle).1 in
    rw (finds_first idle, finds_second second) refl

get_inputs_and_change_example :
    (mask : List Bool) × All IsUsable (select mask entries)
    × Settled lib request 1000
        (select mask entries)
        (get_inputs_and_change lib dongle small_wallet 1000 (request, idle)).1.0
get_inputs_and_change_example =
    get_inputs_and_change_lem lib dongle keyed Network.testnet 0 request small_wallet contents
      entries 1000 idle small_wallet-Holds contents-Reads succeeds

next_unused_index_example :
    (All IsInUse entries × ((next_unused_index lib dongle small_wallet idle).0 ≡ err wallet_full))
    ⊎ ((k : ℕ) × IsFirstUnused k entries
        × ((next_unused_index lib dongle small_wallet idle).0 ≡ ok k))
next_unused_index_example =
    next_unused_index-Scans lib dongle keyed Network.testnet 0 small_wallet contents entries idle
      small_wallet-Holds contents-Reads
