-- ===== src/Wallet/Change.antt =====
-- src/wallet.rs: the methods that rewrite entries: `update`, `receive`, `mark_spent` and
-- `rerandomize`.
use icebox.Prelude.{
  ℕ, zero, suc, ◌+◌, ltb, ◌==◌, ◌&&◌, true, false, List, [], ◌∷◌, ◌++◌, length, replicate, set,
  if◌then◌else◌,
}
use icebox.Error.{base58, user_id_too_long, note_too_long, double_receive, bad_signature}
use icebox.Outcome.{err, panic, assert, fail_if, index, from_foreign}
use icebox.Io.{Io, lift, pure, ◌>>=◌, ◌>>◌}
use icebox.Constants.{max_user_id_bytes, max_note_bytes}
use icebox.Bitcoin.{Transaction, TxOut}
use icebox.Dongle.Trait.{Trait}
use icebox.Wallet.Crates.{Crates}
use icebox.Wallet.Path.{KeyPurpose, bip32_path}
use icebox.Wallet.Cipher.{as_u32, encrypt, decrypt}
use icebox.Wallet.Entry.{Entry, EntryState}
use icebox.Wallet.Sealed.{sign_and_encrypt}
use icebox.Wallet.Store.{EncryptedWallet, on_dongle, this, assign, same_bytes, lookup}

pub data Update (Script : Type 0) : Type 0 where
  unused : List ℕ → Update Script
  change : Transaction Script → ℕ → Update Script

-- `self.entries[index] = block`
abbrev pub assign_entry : {H : Type 0} → ℕ → List ℕ → Io (EncryptedWallet × H) (Unit {0})
assign_entry index block = do
  w ← this
  lift (assert (ltb index (length w.entries)))
  assign (record w { entries = set w.entries index block })

-- b"change of "
abbrev pub change_of : List ℕ
change_of = 0x63 ∷ 0x68 ∷ 0x61 ∷ 0x6e ∷ 0x67 ∷ 0x65 ∷ 0x20 ∷ 0x6f ∷ 0x66 ∷ 0x20 ∷ []

module _ {H PublicKey Signature Script Address : Type 0}
    (lib : Crates PublicKey Signature Script Address) (dongle : Trait H PublicKey Script) where
  -- The entry that `update` makes of its address, by the case of its `data`.
  unfoldable pub updated_entry :
      List ℕ → List ℕ → ℕ → List ℕ → List ℕ → Update Script → Io H (Address → Entry Address)
  updated_entry timestr path i user blockhash (Update.unused note) = do
    lift (fail_if (ltb max_note_bytes (length note)) (note_too_long (length note) max_note_bytes))
    pure (λ address. record {
      state = EntryState.valid;
      bip32_path = path;
      spent = false;
      trusted_input = replicate 56 0;
      address = address;
      index = i;
      txid = replicate 32 0;
      vout = 0;
      amount = 0;
      date = timestr;
      blockhash = blockhash;
      user = user;
      note = note;
    })
  updated_entry timestr path i user blockhash (Update.change tx vout) = do
    trusted_input ← dongle.get_trusted_input tx vout
    out ← lift (index tx.output vout)
    pure (λ address. record {
      state = EntryState.received;
      bip32_path = path;
      spent = false;
      trusted_input = trusted_input;
      address = address;
      index = i;
      txid = lib.txid tx;
      vout = vout;
      amount = out.value;
      date = timestr;
      blockhash = blockhash;
      user = user;
      note = change_of ++ lib.format_hash (lib.txid tx);
    })

  -- `timestr` is `time::strftime("%F %T%z", &time::now()).unwrap()`.
  unfoldable pub update :
      List ℕ → ℕ → List ℕ → List ℕ → Update Script → Io (EncryptedWallet × H) (Entry Address)
  update timestr i user blockhash data_ = do
    w ← this
    lift (
        fail_if (ltb max_user_id_bytes (length user))
          (user_id_too_long (length user) max_user_id_bytes))
    lift (assert (length timestr == 24))
    let path = bip32_path w.network w.account KeyPurpose.address (as_u32 i)
    key ← on_dongle (dongle.get_public_key path false)
    make ← on_dongle (updated_entry timestr path i user blockhash data_)
    address ← lift (from_foreign base58 (lib.from_str key.b58_address))
    block ← on_dongle (sign_and_encrypt lib dongle w.network w.account i (make address))
    assign_entry i block
    pure (make address)

  -- The arm `Valid`: the entry is received, and stored.
  unfoldable pub receive_valid :
      Transaction Script
      → ℕ
      → ℕ
      → TxOut Script
      → Entry Address
      → Io (EncryptedWallet × H) (Entry Address)
  receive_valid tx i vout out entry = do
    w ← this
    trusted_input ← on_dongle (dongle.get_trusted_input tx (as_u32 vout))
    let entry = record entry {
      state = EntryState.received;
      trusted_input = trusted_input;
      txid = lib.txid tx;
      vout = as_u32 vout;
      amount = out.value;
    }
    block ← on_dongle (sign_and_encrypt lib dongle w.network w.account i entry)
    assign_entry i block
    pure entry

  -- The output pays to the entry: `match entry.state`.
  unfoldable pub receive_match :
      EntryState
      → Transaction Script
      → ℕ
      → ℕ
      → TxOut Script
      → Entry Address
      → Io (EncryptedWallet × H) (Entry Address)
  receive_match EntryState.unused tx i vout out entry = lift panic
  receive_match EntryState.invalid tx i vout out entry = lift (err bad_signature)
  receive_match EntryState.received tx i vout out entry =
      if same_bytes entry.txid (lib.txid tx) && (entry.vout == as_u32 vout)
      then pure entry
      else lift (err double_receive)
  receive_match EntryState.valid tx i vout out entry = receive_valid tx i vout out entry

  unfoldable pub receive_outputs :
      Transaction Script
      → ℕ
      → ℕ
      → List (TxOut Script)
      → Entry Address
      → Io (EncryptedWallet × H) (Unit {0})
  receive_outputs tx i vout [] entry = pure tt
  receive_outputs tx i vout (out ∷ outs) entry = do
    entry ←
        (if lib.script_eq out.script_pubkey (lib.script_pubkey entry.address)
          then receive_match entry.state tx i vout out entry
          else pure entry)
    receive_outputs tx i (vout + 1) outs entry

  -- An unused entry is skipped.
  unfoldable pub receive_entry :
      EntryState → Transaction Script → ℕ → Entry Address → Io (EncryptedWallet × H) (Unit {0})
  receive_entry EntryState.unused tx i entry = pure tt
  receive_entry EntryState.valid tx i entry = receive_outputs tx i 0 tx.output entry
  receive_entry EntryState.received tx i entry = receive_outputs tx i 0 tx.output entry
  receive_entry EntryState.invalid tx i entry = receive_outputs tx i 0 tx.output entry

  unfoldable pub receive_from : Transaction Script → ℕ → ℕ → Io (EncryptedWallet × H) (Unit {0})
  receive_from tx i zero = pure tt
  receive_from tx i (suc n) = do
    w ← this
    entry ← on_dongle (lookup lib dongle w i)
    receive_entry entry.state tx i entry
    receive_from tx (i + 1) n

  unfoldable pub receive : Transaction Script → Io (EncryptedWallet × H) (Unit {0})
  receive tx = do w ← this; receive_from tx 0 (length w.entries)

  unfoldable pub mark_spent : ℕ → Io (EncryptedWallet × H) (Unit {0})
  mark_spent i = do
    w ← this
    entry ← on_dongle (lookup lib dongle w i)
    block ←
        on_dongle
          (sign_and_encrypt lib dongle w.network w.account i (record entry { spent = true }))
    assign_entry i block

  unfoldable pub rerandomize_from : ℕ → ℕ → Io (EncryptedWallet × H) (Unit {0})
  rerandomize_from i zero = pure tt
  rerandomize_from i (suc n) = do
    w ← this
    block ← lift (index w.entries i)
    tmp ← on_dongle (decrypt lib dongle w.network w.account i block)
    block ← on_dongle (encrypt lib dongle w.network w.account i tmp block)
    assign_entry i block
    rerandomize_from (i + 1) n

  unfoldable pub rerandomize : Io (EncryptedWallet × H) (Unit {0})
  rerandomize = do w ← this; rerandomize_from 0 (length w.entries)
