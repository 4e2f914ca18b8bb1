-- ===== src/Wallet/Store.antt =====
-- src/wallet.rs: `EncryptedWallet` and its operations. A method that takes `&mut self` works on the
-- wallet beside the dongle, and leaves in both what it did before an error.
use icebox.Prelude.{
  ℕ, zero, suc, ◌+◌, ◌-◌, ◌^◌, ltb, leb, ◌==◌, ◌&&◌, Bool, true, false, List, [], ◌∷◌, ◌++◌, length,
  replicate, if◌then◌else◌,
}
use icebox.Error.{wallet_full, entry_out_of_range, address_not_found}
use icebox.Outcome.{ok, err, panic, fail_if, index}
use icebox.Io.{Io, lift, pure, continue, ◌>>=◌, ◌>>◌}
use icebox.Constants.{decrypted_entry_size, encrypted_entry_size}
use icebox.Message.CoinVersions.{Network}
use icebox.Dongle.Trait.{Trait}
use icebox.Wallet.Crates.{Crates}
use icebox.Wallet.Path.{KeyPurpose, bip32_path}
use icebox.Wallet.Cipher.{as_u32, encrypt}
use icebox.Wallet.Entry.{Entry, EntryState}
use icebox.Wallet.Sealed.{decrypt_and_verify}

pub record EncryptedWallet : Type 0 where
  pub network : Network
  pub account : ℕ
  pub entries : List (List ℕ)

-- A call on the dongle inside a method that takes `&mut self`, and the access to `self`.
abbrev pub on_dongle : {S H A : Type 0} → Io H A → Io (S × H) A
on_dongle m (s, h) = ((m h).0, (s, (m h).1))

abbrev pub this : {S H : Type 0} → Io (S × H) S
this (s, h) = (ok s, (s, h))

abbrev pub assign : {S H : Type 0} → S → Io (S × H) (Unit {0})
assign new (s, h) = (ok tt, (new, h))

-- The methods of a wallet that is local to a function.
abbrev pub on_local :
    {H : Type 0} → EncryptedWallet → Io (EncryptedWallet × H) (Unit {0}) → Io H EncryptedWallet
on_local w m h = continue (m (w, h)).0 (λ _. pure (m (w, h)).1.0) (m (w, h)).1.1

abbrev pub same_bytes : List ℕ → List ℕ → Bool
same_bytes [] [] = true
same_bytes [] (y ∷ ys) = false
same_bytes (x ∷ xs) [] = false
same_bytes (x ∷ xs) (y ∷ ys) = (x == y) && same_bytes xs ys

-- `balance += amount` on a u64.
abbrev pub add_u64 : {H : Type 0} → ℕ → ℕ → Io H ℕ
add_u64 a b = if ltb (a + b) (2 ^ 64) then pure (a + b) else lift panic

module _ {H PublicKey Signature Script Address : Type 0}
    (lib : Crates PublicKey Signature Script Address) (dongle : Trait H PublicKey Script) where
  -- `ret.entries.push(block)` of encrypted zeros.
  unfoldable pub push_blank : ℕ → Io (EncryptedWallet × H) (Unit {0})
  push_blank i = do
    w ← this
    block ← on_dongle (
        encrypt lib dongle w.network w.account i (replicate decrypted_entry_size 0)
          (replicate encrypted_entry_size 0))
    assign (record w { entries = w.entries ++ block ∷ [] })

  unfoldable pub new_loop : ℕ → Io (EncryptedWallet × H) (Unit {0})
  new_loop zero = pure tt
  new_loop (suc n) = do w ← this; push_blank (length w.entries); new_loop n

  unfoldable pub new : Network → ℕ → ℕ → Io H EncryptedWallet
  new network account n_entries = do
    dongle.set_network network
    on_local (record { network = network; account = account; entries = [] }) (new_loop n_entries)

  unfoldable pub extend_loop : ℕ → ℕ → Io (EncryptedWallet × H) (Unit {0})
  extend_loop i zero = pure tt
  extend_loop i (suc n) = do push_blank i; extend_loop (i + 1) n

  unfoldable pub extend : ℕ → Io (EncryptedWallet × H) (Unit {0})
  extend n_entries = do
    w ← this
    if leb n_entries (length w.entries)
        then pure tt
        else extend_loop (length w.entries) (n_entries - length w.entries)

  unfoldable pub lookup : EncryptedWallet → ℕ → Io H (Entry Address)
  lookup w i = do
    lift (fail_if (ltb (length w.entries) (i + 1)) (entry_out_of_range i))
    block ← lift (index w.entries i)
    decrypt_and_verify lib dongle w.network w.account i block

  -- The loop from `i` on, with the number of entries left.
  unfoldable pub next_unused_from : EncryptedWallet → ℕ → ℕ → Io H ℕ
  next_unused_from w i zero = lift (err wallet_full)
  next_unused_from w i (suc n) = do
    entry ← lookup w i
    elim entry.state [ EntryState.unused ↦ pure entry.index | _ ↦ next_unused_from w (i + 1) n ]

  unfoldable pub next_unused_index : EncryptedWallet → Io H ℕ
  next_unused_index w = next_unused_from w 0 (length w.entries)

  unfoldable pub search_from : EncryptedWallet → List ℕ → ℕ → List (List ℕ) → Io H (Entry Address)
  search_from w address i [] = lift (err address_not_found)
  search_from w address i (entry ∷ entries) = do
    let path = bip32_path w.network w.account KeyPurpose.address (as_u32 i)
    key ← dongle.get_public_key path false
    elim (same_bytes key.b58_address address) [
      | true ↦ decrypt_and_verify lib dongle w.network w.account i entry
      | false ↦ search_from w address (i + 1) entries
    ]

  unfoldable pub search : EncryptedWallet → List ℕ → Io H (Entry Address)
  search w address = search_from w address 0 w.entries

  unfoldable pub display : EncryptedWallet → ℕ → Io H (Unit {0})
  display w i = do
    key ← dongle.get_public_key (bip32_path w.network w.account KeyPurpose.address (as_u32 i)) true
    pure tt

  unfoldable pub balance_from : EncryptedWallet → ℕ → ℕ → ℕ → Io H ℕ
  balance_from w i zero balance = pure balance
  balance_from w i (suc n) balance = do
    entry ← lookup w i
    balance ← (if entry.spent then pure balance else add_u64 balance entry.amount)
    balance_from w (i + 1) n balance

  unfoldable pub get_balance : EncryptedWallet → Io H ℕ
  get_balance w = balance_from w 0 (length w.entries) 0
