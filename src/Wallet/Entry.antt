-- ===== src/Wallet/Entry.antt =====
-- src/wallet.rs: `EntryState`, `Entry`, and the 336 bytes of an entry.
use icebox.Prelude.{
  ℕ, ◌+◌, ◌==◌, ◌&&◌, Bool, true, false, List, [], ◌∷◌, length, replicate, if◌then◌else◌,
}
use icebox.Error.{base58, utf8}
use icebox.Outcome.{Outcome, ok, from_foreign, index_range, ◌>>=◌}
use icebox.Bytes.{be_u32, be_u64, read_u32, read_u64}
use icebox.Constants.{decrypted_entry_size}
use icebox.Signature.{copy_into, convert_compact_to_secp}
use icebox.Message.WalletPublicKey.{WalletPublicKey}
use icebox.Wallet.Crates.{Crates, hash_sha256}

pub data EntryState : Type 0 where
  unused valid received invalid : EntryState

pub record Entry (Address : Type 0) : Type 0 where
  pub state : EntryState
  pub bip32_path : List ℕ
  pub spent : Bool
  pub trusted_input : List ℕ
  pub address : Address
  pub index : ℕ
  pub txid : List ℕ
  pub vout : ℕ
  pub amount : ℕ
  pub date : List ℕ
  pub blockhash : List ℕ
  pub user : List ℕ
  pub note : List ℕ

-- What `sign_and_encrypt` writes before it signs.
unfoldable pub encode_entry : {Address : Type 0} → Entry Address → Outcome (List ℕ)
encode_entry entry = do
  input ← copy_into 64 120 entry.trusted_input (replicate decrypted_entry_size 0)
  input ← copy_into 120 152 entry.txid input
  input ← copy_into 152 156 (be_u32 entry.vout) input
  input ← copy_into 156 164 (be_u64 entry.amount) input
  input ← copy_into 164 188 entry.date input
  input ← copy_into 188 220 entry.blockhash input
  input ← copy_into 220 (220 + length entry.user) entry.user input
  input ← copy_into 252 (252 + length entry.note) entry.note input
  copy_into 332 336 (be_u32 (if entry.spent then 1 else 0)) input

-- `iter().all(|x| *x == 0)`
abbrev pub all_zero : List ℕ → Bool
all_zero [] = true
all_zero (x ∷ xs) = (x == 0) && all_zero xs

-- b"\x18Bitcoin Signed Message:\n\xfd\x10\x01"
abbrev pub signed_prefix : List ℕ
signed_prefix =
    0x18 ∷ 0x42 ∷ 0x69 ∷ 0x74 ∷ 0x63 ∷ 0x6f ∷ 0x69 ∷ 0x6e ∷ 0x20 ∷ 0x53 ∷ 0x69 ∷ 0x67 ∷ 0x6e ∷ 0x65
    ∷ 0x64 ∷ 0x20 ∷ 0x4d ∷ 0x65 ∷ 0x73 ∷ 0x73 ∷ 0x61 ∷ 0x67 ∷ 0x65 ∷ 0x3a ∷ 0x0a ∷ 0xfd ∷ 0x10
    ∷ 0x01 ∷ []

abbrev pub state_of : Bool → List ℕ → EntryState
state_of verified trusted_input =
    if verified
    then (if all_zero trusted_input then EntryState.valid else EntryState.received)
    else EntryState.invalid

module _ {PublicKey Signature Script Address : Type 0}
    (lib : Crates PublicKey Signature Script Address) (path : List ℕ) (position : ℕ)
    (key : WalletPublicKey PublicKey) where
  -- The branch of a date that is zeroed out.
  unfoldable pub unused_entry : Outcome (Entry Address)
  unused_entry = do
    address ← from_foreign base58 (lib.from_str key.b58_address)
    ok (record {
      state = EntryState.unused;
      bip32_path = path;
      spent = false;
      trusted_input = replicate 56 0;
      address = address;
      index = position;
      txid = replicate 32 0;
      vout = 0;
      amount = 0;
      date = replicate 24 0;
      blockhash = replicate 32 0;
      user = [];
      note = [];
    })

  -- The signature in the block is that of the key, on the bytes behind it.
  unfoldable pub verified : List ℕ → Outcome Bool
  verified block = do
    compact ← index_range 0 64 block
    sig ← convert_compact_to_secp lib.secp compact
    msg_full ← copy_into 0 28 signed_prefix (replicate 300 0)
    signed ← index_range 64 336 block
    msg_full ← copy_into 28 300 signed msg_full
    let msg_hash = hash_sha256 lib (hash_sha256 lib msg_full)
    ok (lib.verify msg_hash sig key.public_key)

  unfoldable pub signed_entry : List ℕ → Outcome (Entry Address)
  signed_entry block = do
    is_verified ← verified block
    trusted_input ← index_range 64 120 block
    txid ← index_range 120 152 block
    date ← index_range 164 188 block
    hash ← index_range 188 220 block
    address ← from_foreign base58 (lib.from_str key.b58_address)
    user_bytes ← index_range 220 252 block
    user ← from_foreign utf8 (lib.from_utf8 user_bytes)
    note_bytes ← index_range 252 332 block
    note ← from_foreign utf8 (lib.from_utf8 note_bytes)
    ok (record {
      state = state_of is_verified trusted_input;
      bip32_path = path;
      spent = read_u32 332 block == 1;
      trusted_input = trusted_input;
      address = address;
      index = position;
      txid = txid;
      vout = read_u32 152 block;
      amount = read_u64 156 block;
      date = date;
      blockhash = hash;
      user = user;
      note = note;
    })

  -- `decrypt_and_verify` behind the key of the entry.
  unfoldable pub interpret : List ℕ → Outcome (Entry Address)
  interpret block = do
    date ← index_range 164 188 block
    if all_zero date then unused_entry else signed_entry block
