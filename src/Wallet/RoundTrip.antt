-- ===== src/Wallet/RoundTrip.antt =====
-- src/wallet.rs: `sign_and_encrypt` and `decrypt_and_verify` on an honest dongle.
use icebox.Prelude.{
  ℕ, ◌≡◌, refl, ap, sym, ◌∙◌, true, false, List, [], ◌∷◌, ◌++◌, append-nil, length, length-append,
  replicate, slice, slice_between, join, arith,
}
use icebox.Outcome.{ok, done, index_range_ok}
use icebox.Signature.Compact.{copy_into_lem}
use icebox.Message.CoinVersions.{Network}
use icebox.Dongle.Trait.{Trait}
use icebox.Wallet.Crates.{Crates}
use icebox.Wallet.Path.{KeyPurpose, bip32_path, length-bip32_path}
use icebox.Wallet.Cipher.{as_u32, decrypt}
use icebox.Wallet.Entry.{Entry, all_zero, interpret}
use icebox.Wallet.Layout.{Fits, fields, pad, encode_entry_lem}
use icebox.Wallet.ReadBack.{interpret_lem, read_back, length-fields}
use icebox.Wallet.Sealed.{sign_and_encrypt, decrypt_and_verify}
use icebox.Wallet.Honest.{
  Keyed, Signing, open_block, sealed_block, decrypt_lem, encrypt_lem, length-sealed_block,
  open-sealed_block,
}

module _ {H PublicKey Signature Script Address : Type 0}
    (lib : Crates PublicKey Signature Script Address) (dongle : Trait H PublicKey Script)
    (keyed : Keyed lib dongle) (network : Network) (account i : ℕ) where
  abbrev pub address_path : List ℕ
  address_path = bip32_path network account KeyPurpose.address (as_u32 i)

  pub length-address_path : length address_path ≡ 5
  length-address_path = length-bip32_path network account KeyPurpose.address (as_u32 i)

  pub decrypt_and_verify_lem :
      (block : List ℕ) (h : H)
      → length block ≡ 352
      → (decrypt_and_verify lib dongle network account i block h).0
        ≡ interpret lib address_path i
            (keyed.key address_path)
            (open_block lib dongle keyed network account i block)
  unfolding decrypt_and_verify
  decrypt_and_verify_lem block h size =
      let h1 : H = (decrypt lib dongle network account i block h).1 in
      rw (
        decrypt_lem lib dongle keyed network account i block h size,
        keyed.keys address_path false h1 length-address_path,
      )

  module _ (signing : Signing lib dongle keyed) where
    -- The bytes of an entry that is signed in the state `h`.
    abbrev pub signed_bytes : Entry Address → H → List ℕ
    signed_bytes entry h =
        join (signing.signature (join (fields entry)) address_path h ∷ fields entry)

    -- The state behind the signature.
    abbrev pub after_signing : Entry Address → H → H
    after_signing entry h = (dongle.sign_message (join (fields entry)) address_path h).1

    pub length-signed_bytes :
        (entry : Entry Address) (h : H) → Fits entry → length (signed_bytes entry h) ≡ 336
    length-signed_bytes entry h fits =
        let sig : List ℕ = signing.signature (join (fields entry)) address_path h in
        omega (
          arith,
          length-append sig (join (fields entry)),
          signing.length-signature (join (fields entry)) address_path h,
          length-fields entry fits,
        )

    pub sign_and_encrypt_lem :
        (entry : Entry Address) (h : H)
        → Fits entry
        → (sign_and_encrypt lib dongle network account i entry h).0
          ≡ ok (
              sealed_block lib dongle keyed network account i
                (signed_bytes entry h)
                (after_signing entry h))
    unfolding sign_and_encrypt
    sign_and_encrypt_lem entry h fits =
        let msg : List ℕ = join (fields entry) in
        let size : length msg ≡ 272 = length-fields entry fits in
        let sig : List ℕ = signing.signature msg address_path h in
        let blank : List ℕ = replicate 64 0 in
        let signed : slice 64 336 (blank ++ msg) ≡ msg =
          ap (λ t. slice 64 336 (blank ++ t)) (sym (append-nil msg))
          ∙ slice_between 64 336 blank msg [] refl (omega arith) in
        rw
          (
            encode_entry_lem entry fits,
            index_range_ok 64 336 (blank ++ msg) (omega arith) (omega arith),
            signed,
            signing.signs msg address_path h size length-address_path,
            copy_into_lem 0 64 [] blank msg sig refl refl
                (sym (signing.length-signature msg address_path h)),
          )
          (encrypt_lem lib dongle keyed network account i (signed_bytes entry h) (replicate 352 0)
            (after_signing entry h) (length-signed_bytes entry h fits) refl)

    -- The date is not blank, and the padded texts are UTF-8.
    pub record Readable (entry : Entry Address) : Type 0 where
      pub fits : Fits entry
      pub dated : all_zero entry.date ≡ false
      pub user : lib.from_utf8 (pad 32 entry.user) ≡ done (pad 32 entry.user)
      pub note : lib.from_utf8 (pad 80 entry.note) ≡ done (pad 80 entry.note)

    -- The entry that is read from the bytes of a signed entry.
    abbrev pub reread : Entry Address → Entry Address
    reread entry =
        read_back lib address_path i (keyed.key address_path) true (signing.address address_path)
          entry

    pub interpret-signed_bytes :
        (entry : Entry Address) (h : H)
        → Readable entry
        → interpret lib address_path i (keyed.key address_path) (signed_bytes entry h)
          ≡ ok (reread entry)
    interpret-signed_bytes entry h readable =
        let msg : List ℕ = join (fields entry) in
        interpret_lem lib address_path i (keyed.key address_path)
          (signing.signature msg address_path h) entry (signing.secp_form msg address_path h)
          (signing.address address_path) (signing.length-signature msg address_path h) readable.fits
          readable.dated (signing.secp_reads msg address_path h) (signing.addresses address_path)
          readable.user readable.note
        ∙ ap
            (λ b. ok (
              read_back lib address_path i (keyed.key address_path) b (signing.address address_path)
                entry))
            (signing.verifies msg address_path h (length-fields entry readable.fits))

    -- On an honest dongle, for an entry whose fields have their sizes, with a date and with texts
    -- whose padding is UTF-8: `sign_and_encrypt` gives a block of 352 bytes, and from it, in every
    -- state of the dongle, `decrypt_and_verify` gives the entry back: with the path, index and address
    -- of its place, the texts padded with zeros, and as received if it has a trusted input, else valid.
    pub decrypt_and_verify-sign_and_encrypt :
        (entry : Entry Address) (h h' : H)
        → Readable entry
        → (block : List ℕ) × ((sign_and_encrypt lib dongle network account i entry h).0 ≡ ok block)
          × (length block ≡ 352)
          × ((decrypt_and_verify lib dongle network account i block h').0 ≡ ok (reread entry))
    decrypt_and_verify-sign_and_encrypt entry h h' readable =
        let bytes : List ℕ = signed_bytes entry h in
        let h2 : H = after_signing entry h in
        let li : length bytes ≡ 336 = length-signed_bytes entry h readable.fits in
        let block : List ℕ = sealed_block lib dongle keyed network account i bytes h2 in
        let size : length block ≡ 352 =
          length-sealed_block lib dongle keyed network account i bytes h2 li in
        (
          block,
          sign_and_encrypt_lem entry h readable.fits,
          size,
          decrypt_and_verify_lem block h' size
              ∙ ap (interpret lib address_path i (keyed.key address_path))
                  (open-sealed_block lib dongle keyed network account i bytes h2 li)
              ∙ interpret-signed_bytes entry h readable,
        )
