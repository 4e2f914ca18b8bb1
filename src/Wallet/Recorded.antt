-- ===== src/Wallet/Recorded.antt =====
-- src/wallet.rs: `lookup` against a description of the bytes of an entry.
use icebox.Prelude.{
  ℕ, ◌<◌, ◌≡◌, ◌⊎◌, inl, inr, refl, ap, sym, ◌∙◌, Bool, true, false, ltb, ltb→lt, Bool-cases, List,
  [], ◌∷◌, ◌++◌, length, replicate, get_or, join, if◌then◌else◌,
}
use icebox.Error.{entry_out_of_range}
use icebox.Outcome.{ok, err, done, index_range}
use icebox.Signature.{convert_compact_to_secp}
use icebox.Message.CoinVersions.{Network}
use icebox.Message.WalletPublicKey.{WalletPublicKey}
use icebox.Dongle.Trait.{Trait}
use icebox.Wallet.Crates.{Crates}
use icebox.Wallet.Entry.{
  Entry, EntryState, all_zero, state_of, unused_entry, interpret, signed_prefix,
}
use icebox.Wallet.Layout.{Fits, fields, pad}
use icebox.Wallet.ReadBack.{interpret_lem}
use icebox.Wallet.Store.{EncryptedWallet, lookup}
use icebox.Wallet.Honest.{Keyed}
use icebox.Wallet.RoundTrip.{address_path}
use icebox.Wallet.Contents.{Holds}
use icebox.Wallet.Lookup.{entry_at, lookup_lem}

-- The state of a signed entry.
abbrev pub signed_state : Bool → List ℕ → EntryState
signed_state true trusted_input =
    if all_zero trusted_input then EntryState.valid else EntryState.received
signed_state false trusted_input = EntryState.invalid

signed_state_lem : (b : Bool) (ti : List ℕ) → state_of b ti ≡ signed_state b ti
signed_state_lem true ti = refl
signed_state_lem false ti = refl

module _ {H PublicKey Signature Script Address : Type 0}
    (lib : Crates PublicKey Signature Script Address) (dongle : Trait H PublicKey Script)
    (keyed : Keyed lib dongle) (network : Network) (account i : ℕ) where
  abbrev key : WalletPublicKey PublicKey
  key = keyed.key (address_path lib dongle keyed network account i)

  -- The 336 bytes are all zero, and the entry is an unused one at its place, with its address.
  pub record IsBlank (bytes : List ℕ) (e : Entry Address) : Type 0 where
    pub address : Address
    pub is_bytes : bytes ≡ replicate 336 0
    pub is_address : lib.from_str key.b58_address ≡ done address
    pub is_entry : e ≡ record {
      state = EntryState.unused;
      bip32_path = address_path lib dongle keyed network account i;
      spent = false;
      trusted_input = replicate 56 0;
      address = address;
      index = i;
      txid = replicate 32 0;
      vout = 0;
      amount = 0;
      date = replicate 24 0;
      blockhash = replicate 32 0;
      user = [];
      note = [];
    }

  -- The bytes are a signature of 64 bytes and the fields of an entry with a date and with texts in
  -- UTF-8; the entry has these fields, the path, index and address of its place, and the state that
  -- the verification of the signature and the trusted input say.
  pub record IsSigned (bytes : List ℕ) (e : Entry Address) : Type 0 where
    pub sig : List ℕ
    pub entry : Entry Address
    pub secp_form : Signature
    pub address : Address
    pub is_bytes : bytes ≡ join (sig ∷ fields entry)
    pub length-sig : length sig ≡ 64
    pub fits : Fits entry
    pub dated : all_zero entry.date ≡ false
    pub secp_reads : convert_compact_to_secp lib.secp sig ≡ ok secp_form
    pub is_address : lib.from_str key.b58_address ≡ done address
    pub user : lib.from_utf8 (pad 32 entry.user) ≡ done (pad 32 entry.user)
    pub note : lib.from_utf8 (pad 80 entry.note) ≡ done (pad 80 entry.note)
    pub is_entry : e ≡ record entry {
      state =
          signed_state
            (lib.verify
              (lib.sha256 (lib.sha256 (signed_prefix ++ join (fields entry))))
              secp_form
              key.public_key)
            entry.trusted_input;
      bip32_path = address_path lib dongle keyed network account i;
      address = address;
      index = i;
      user = pad 32 entry.user;
      note = pad 80 entry.note;
    }

  -- What stands at a place of the wallet.
  abbrev pub IsRecorded : List ℕ → Entry Address → Type 0
  IsRecorded bytes e = IsBlank bytes e ⊎ IsSigned bytes e

  blank_read :
      (bytes : List ℕ) (e : Entry Address)
      → IsBlank bytes e
      → entry_at lib dongle keyed network account i bytes ≡ ok e
  unfolding interpret unused_entry index_range
  blank_read bytes e b = rw (b.is_bytes, b.is_entry, b.is_address)

  signed_read :
      (bytes : List ℕ) (e : Entry Address)
      → IsSigned bytes e
      → entry_at lib dongle keyed network account i bytes ≡ ok e
  signed_read bytes e s =
      ap (entry_at lib dongle keyed network account i) s.is_bytes
      ∙ interpret_lem lib (address_path lib dongle keyed network account i) i key s.sig s.entry
          s.secp_form s.address s.length-sig s.fits s.dated s.secp_reads s.is_address s.user s.note
      ∙ rw signed_state_lem (ap ok (sym s.is_entry))

  recorded_read :
      (bytes : List ℕ) (e : Entry Address)
      → IsRecorded bytes e
      → entry_at lib dongle keyed network account i bytes ≡ ok e
  recorded_read bytes e (inl b) = blank_read bytes e b
  recorded_read bytes e (inr s) = signed_read bytes e s

  -- On an honest dongle, for a wallet of whole blocks and an index at which, if it is in range, the
  -- content is blank or a signature in front of the fields of an entry: `lookup` gives the unused entry
  -- of that place, or the entry with those fields as valid, received or invalid by its trusted input
  -- and its signature; and it fails with the index for one that is out of range.
  pub lookup-IsRecorded :
      (w : EncryptedWallet) (contents : List (List ℕ)) (e : Entry Address) (h : H)
      → Holds lib dongle keyed network account w contents
      → (i < length contents → IsRecorded (get_or contents i []) e)
      → (lookup lib dongle w i h).0
        ≡ (if ltb i (length contents) then ok e else err (entry_out_of_range i))
  lookup-IsRecorded w contents e h holds recorded =
      lookup_lem lib dongle keyed network account w contents i h holds
      ∙ elim (Bool-cases (ltb i (length contents))) [
        | inl t ↦
            rw t (recorded_read (get_or contents i []) e (recorded (ltb→lt i (length contents) t)))
        | inr t ↦ rw t
      ]
