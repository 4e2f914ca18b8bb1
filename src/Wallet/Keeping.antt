-- ===== src/Wallet/Keeping.antt =====
-- src/wallet.rs: the methods that rewrite entries keep the wallet well formed on every dongle.
use icebox.Prelude.{
  ℕ, zero, suc, ◌+◌, ◌≡◌, ap, sym, ◌∙◌, Bool, true, false, ltb, ◌==◌, List, [], ◌∷◌, length, All,
  replicate, if◌then◌else◌,
}
use icebox.Error.{bad_signature, double_receive, user_id_too_long, base58}
use icebox.Outcome.{
  Outcome, ok, err, panic, ok_value, index, index_range, fail_if, assert, from_foreign,
}
use icebox.Io.{Io, continue_elim, lift, pure, ◌>>=◌, ◌>>◌}
use icebox.Signature.{copy_into}
use icebox.Message.CoinVersions.{Network}
use icebox.Bitcoin.{Transaction, TxOut}
use icebox.Dongle.Trait.{Trait}
use icebox.Wallet.Crates.{Crates}
use icebox.Wallet.Path.{KeyPurpose, bip32_path}
use icebox.Wallet.Cipher.{as_u32, encrypt, decrypt}
use icebox.Wallet.Entry.{Entry, EntryState, encode_entry}
use icebox.Wallet.Sealed.{sign_and_encrypt}
use icebox.Wallet.Store.{EncryptedWallet, on_dongle, this, lookup}
use icebox.Wallet.Change.{
  Update, assign_entry, receive_valid, receive_entry, updated_entry, update, receive_match,
  receive_outputs, receive_from, receive, mark_spent, rerandomize_from, rerandomize,
}
use icebox.Wallet.Contents.{IsBlock}
use icebox.Wallet.Invariant.{
  length-copy_into, Kept, Keeps, Anything, bind-Keeps, on_dongle-Keeps, lift-Keeps, this-Keeps,
  pure-Keeps, assign_entry-Keeps,
}

-- An element that an index finds satisfies what all do.
All-index :
    (blocks : List (List ℕ)) (i : ℕ) (block : List ℕ)
    → All IsBlock blocks
    → index blocks i ≡ ok block
    → IsBlock block
unfolding index
All-index [] i block whole e = absurd (cc e)
All-index (b ∷ blocks) zero block whole e = ap length (sym (ok_value e)) ∙ whole.0
All-index (b ∷ blocks) (suc i) block whole e = All-index blocks i block whole.1 e

module _ {H PublicKey Signature Script Address : Type 0}
    (lib : Crates PublicKey Signature Script Address) (dongle : Trait H PublicKey Script) where
  length-encrypt :
      (network : Network) (account i : ℕ) (input output b : List ℕ) (h : H)
      → (encrypt lib dongle network account i input output h).0 ≡ ok b
      → length b ≡ length output
  unfolding encrypt
  length-encrypt network account i input output b h e =
      let path : List ℕ = bip32_path network account KeyPurpose.aes_key (as_u32 i) in
      let h2 : H = (dongle.get_public_key path false h).1 in
      let after : H = (encrypt lib dongle network account i input output h).1 in
      continue_elim (dongle.get_public_key path false h).0 _ _ (ap (λ t. (t, after)) e)
        (λ key e1 r1. continue_elim (dongle.get_random 16 h2).0 _ _ r1 (λ iv e2 r2.
          continue_elim (copy_into 0 16 iv output) _ _ r2 (λ out is_out is_b.
            length-copy_into 16 (length out) (lib.aes_ctr key.chaincode iv input) out b
              (ap (λ t. t.0) is_b)
            ∙ length-copy_into 0 16 iv output out is_out)))

  sign_and_encrypt-IsBlock :
      (network : Network) (account i : ℕ) (entry : Entry Address) (b : List ℕ) (h : H)
      → (sign_and_encrypt lib dongle network account i entry h).0 ≡ ok b
      → IsBlock b
  unfolding sign_and_encrypt
  sign_and_encrypt-IsBlock network account i entry b h e =
      let path : List ℕ = bip32_path network account KeyPurpose.address (as_u32 i) in
      let after : H = (sign_and_encrypt lib dongle network account i entry h).1 in
      continue_elim (encode_entry entry) _ _ (ap (λ t. (t, after)) e) (λ input e1 r1.
        continue_elim (index_range 64 336 input) _ _ r1 (λ to_sign e2 r2.
          continue_elim (dongle.sign_message to_sign path h).0 _ _ r2 (λ sig e3 r3.
            continue_elim (copy_into 0 64 sig input) _ _ r3 (λ bytes e4 r4.
              length-encrypt network account i bytes (replicate 352 0) b
                (dongle.sign_message to_sign path h).1 (ap (λ t. t.0) r4)))))

  sealing-Keeps :
      (network : Network) (account i : ℕ) (entry : Entry Address)
      → Keeps {H = H} IsBlock (on_dongle (sign_and_encrypt lib dongle network account i entry))
  sealing-Keeps network account i entry =
      on_dongle-Keeps IsBlock (sign_and_encrypt lib dongle network account i entry)
        (λ h b e. sign_and_encrypt-IsBlock network account i entry b h e)

  asking-Keeps : {A : Type 0} (m : Io H A) → Keeps {H = H} Anything (on_dongle m)
  asking-Keeps m = on_dongle-Keeps Anything m (λ h a e. tt)

  pub mark_spent-Keeps : (i : ℕ) → Keeps {H = H} Anything (mark_spent lib dongle i)
  unfolding mark_spent
  mark_spent-Keeps i = bind-Keeps _ Anything this _ (this-Keeps H) (λ w whole.
      bind-Keeps Anything Anything (on_dongle (lookup lib dongle w i)) _
        (asking-Keeps (lookup lib dongle w i))
        (λ entry u.
          bind-Keeps IsBlock Anything _ (assign_entry i)
            (sealing-Keeps w.network w.account i (record entry { spent = true }))
            (λ block size. assign_entry-Keeps H i block size)))

  rerandomize_from-Keeps : (n i : ℕ) → Keeps {H = H} Anything (rerandomize_from lib dongle i n)
  unfolding rerandomize_from
  rerandomize_from-Keeps zero i = pure-Keeps H tt
  rerandomize_from-Keeps (suc n) i = bind-Keeps _ Anything this _ (this-Keeps H) (λ w whole.
      bind-Keeps IsBlock Anything (lift (index w.entries i)) _
        (lift-Keeps H IsBlock (index w.entries i) (λ b e. All-index w.entries i b whole e))
        (λ block size.
          bind-Keeps Anything Anything _ _
            (asking-Keeps (decrypt lib dongle w.network w.account i block))
            (λ tmp u.
              bind-Keeps IsBlock Anything _ _
                (on_dongle-Keeps IsBlock (encrypt lib dongle w.network w.account i tmp block)
                  (λ h b e. length-encrypt w.network w.account i tmp block b h e ∙ size))
                (λ block2 size2.
                  bind-Keeps Anything Anything (assign_entry i block2) _
                    (assign_entry-Keeps H i block2 size2)
                    (λ u v. rerandomize_from-Keeps n (i + 1))))))

  pub rerandomize-Keeps : Keeps {H = H} Anything (rerandomize lib dongle)
  unfolding rerandomize
  rerandomize-Keeps =
      bind-Keeps _ Anything this _ (this-Keeps H)
        (λ w whole. rerandomize_from-Keeps (length w.entries) 0)

  -- A chain whose first value satisfies nothing in particular.
  then-Keeps :
      {A B : Type 0} (Q : B → Type 0) (m : Io (EncryptedWallet × H) A)
      (f : A → Io (EncryptedWallet × H) B)
      → Keeps Anything m
      → ((a : A) → Keeps Q (f a))
      → Keeps Q (m >>= f)
  then-Keeps Q m f keeps k = bind-Keeps Anything Q m f keeps (λ a u. k a)

  reading-Keeps : Keeps {H = H} Anything this
  unfolding Keeps
  reading-Keeps w h whole = ((this-Keeps H w h whole).0, λ a e. tt)

  outcome-Keeps : {A : Type 0} (o : Outcome A) → Keeps {H = H} Anything (lift o)
  outcome-Keeps o = lift-Keeps H Anything o (λ a e. tt)

  either-Keeps :
      {A : Type 0} (b : Bool) (m n : Io (EncryptedWallet × H) A)
      → Keeps Anything m
      → Keeps Anything n
      → Keeps Anything (if b then m else n)
  either-Keeps true m n k l = k
  either-Keeps false m n k l = l

  -- An entry is sealed, stored and returned.
  stored-Keeps :
      (network : Network) (account i : ℕ) (entry : Entry Address)
      → Keeps {H = H} Anything (
          on_dongle (sign_and_encrypt lib dongle network account i entry) >>= λ block.
          assign_entry i block >> pure entry)
  stored-Keeps network account i entry =
      bind-Keeps IsBlock Anything (on_dongle (sign_and_encrypt lib dongle network account i entry))
        (λ block. assign_entry i block >> pure entry) (sealing-Keeps network account i entry)
        (λ block size.
          then-Keeps Anything (assign_entry i block) (λ u. pure entry)
            (assign_entry-Keeps H i block size) (λ u. pure-Keeps H entry))

  pub update-Keeps :
      (timestr : List ℕ) (i : ℕ) (user blockhash : List ℕ) (data_ : Update Script)
      → Keeps {H = H} Anything (update lib dongle timestr i user blockhash data_)
  unfolding update
  update-Keeps timestr i user blockhash data_ = then-Keeps Anything this _ reading-Keeps (λ w.
      let path : List ℕ = bip32_path w.network w.account KeyPurpose.address (as_u32 i) in
      then-Keeps Anything _ _
        (outcome-Keeps (fail_if (ltb 32 (length user)) (user_id_too_long (length user) 32)))
        (λ u. then-Keeps Anything _ _ (outcome-Keeps (assert (length timestr == 24))) (λ u.
          then-Keeps Anything _ _ (asking-Keeps (dongle.get_public_key path false)) (λ key.
            then-Keeps Anything _ _
              (asking-Keeps (updated_entry lib dongle timestr path i user blockhash data_))
              (λ make.
                then-Keeps Anything _ _
                  (outcome-Keeps (from_foreign base58 (lib.from_str key.b58_address)))
                  (λ address. stored-Keeps w.network w.account i (make address)))))))

  receive_valid-Keeps :
      (tx : Transaction Script) (i vout : ℕ) (out : TxOut Script) (entry : Entry Address)
      → Keeps {H = H} Anything (receive_valid lib dongle tx i vout out entry)
  unfolding receive_valid
  receive_valid-Keeps tx i vout out entry = then-Keeps Anything this _ reading-Keeps (λ w.
      then-Keeps Anything _ _ (asking-Keeps (dongle.get_trusted_input tx (as_u32 vout)))
        (λ trusted_input. stored-Keeps w.network w.account i (record entry {
          state = EntryState.received;
          trusted_input = trusted_input;
          txid = lib.txid tx;
          vout = as_u32 vout;
          amount = out.value;
        })))

  receive_match-Keeps :
      (state : EntryState) (tx : Transaction Script) (i vout : ℕ) (out : TxOut Script)
      (entry : Entry Address)
      → Keeps {H = H} Anything (receive_match lib dongle state tx i vout out entry)
  unfolding receive_match
  receive_match-Keeps EntryState.unused tx i vout out entry = outcome-Keeps panic
  receive_match-Keeps EntryState.invalid tx i vout out entry = outcome-Keeps (err bad_signature)
  receive_match-Keeps EntryState.received tx i vout out entry =
      either-Keeps _ (pure entry) (lift (err double_receive)) (pure-Keeps H entry)
        (outcome-Keeps (err double_receive))
  receive_match-Keeps EntryState.valid tx i vout out entry = receive_valid-Keeps tx i vout out entry

  receive_outputs-Keeps :
      (tx : Transaction Script) (i vout : ℕ) (outs : List (TxOut Script)) (entry : Entry Address)
      → Keeps {H = H} Anything (receive_outputs lib dongle tx i vout outs entry)
  unfolding receive_outputs
  receive_outputs-Keeps tx i vout [] entry = pure-Keeps H tt
  receive_outputs-Keeps tx i vout (out ∷ outs) entry =
      then-Keeps Anything _ _
        (either-Keeps _ (receive_match lib dongle entry.state tx i vout out entry) (pure entry)
          (receive_match-Keeps entry.state tx i vout out entry) (pure-Keeps H entry))
        (λ entry. receive_outputs-Keeps tx i (vout + 1) outs entry)

  receive_entry-Keeps :
      (state : EntryState) (tx : Transaction Script) (i : ℕ) (entry : Entry Address)
      → Keeps {H = H} Anything (receive_entry lib dongle state tx i entry)
  unfolding receive_entry
  receive_entry-Keeps EntryState.unused tx i entry = pure-Keeps H tt
  receive_entry-Keeps EntryState.valid tx i entry = receive_outputs-Keeps tx i 0 tx.output entry
  receive_entry-Keeps EntryState.received tx i entry = receive_outputs-Keeps tx i 0 tx.output entry
  receive_entry-Keeps EntryState.invalid tx i entry = receive_outputs-Keeps tx i 0 tx.output entry

  receive_from-Keeps :
      (tx : Transaction Script) (n i : ℕ) → Keeps {H = H} Anything (receive_from lib dongle tx i n)
  unfolding receive_from
  receive_from-Keeps tx zero i = pure-Keeps H tt
  receive_from-Keeps tx (suc n) i = then-Keeps Anything this _ reading-Keeps (λ w.
      then-Keeps Anything _ _ (asking-Keeps (lookup lib dongle w i)) (λ entry.
        then-Keeps Anything _ _ (receive_entry-Keeps entry.state tx i entry)
          (λ u. receive_from-Keeps tx n (i + 1))))

  pub receive-Keeps : (tx : Transaction Script) → Keeps {H = H} Anything (receive lib dongle tx)
  unfolding receive
  receive-Keeps tx =
      then-Keeps Anything this _ reading-Keeps (λ w. receive_from-Keeps tx (length w.entries) 0)

  -- On every dongle, honest or not, and however the call ends, with a value, an error or a panic:
  -- `update`, `receive`, `mark_spent` and `rerandomize` on a wallet of whole blocks leave its network,
  -- its account and the number of its entries as they were, and its blocks whole.
  pub methods-Kept :
      (w : EncryptedWallet) (h : H) (timestr : List ℕ) (i : ℕ) (user blockhash : List ℕ)
      (data_ : Update Script) (tx : Transaction Script)
      → All IsBlock w.entries
      → Kept w (update lib dongle timestr i user blockhash data_ (w, h)).1.0
        × Kept w (receive lib dongle tx (w, h)).1.0
        × Kept w (mark_spent lib dongle i (w, h)).1.0
        × Kept w (rerandomize lib dongle (w, h)).1.0
  unfolding Keeps
  methods-Kept w h timestr i user blockhash data_ tx whole = (
    (update-Keeps timestr i user blockhash data_ w h whole).0,
    (receive-Keeps tx w h whole).0,
    (mark_spent-Keeps i w h whole).0,
    (rerandomize-Keeps w h whole).0,
  )
