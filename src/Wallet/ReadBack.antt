-- ===== src/Wallet/ReadBack.antt =====
-- src/wallet.rs: `decrypt_and_verify` on the bytes that `sign_and_encrypt` makes, behind encryption.
use icebox.Prelude.{
  ℕ, ◌+◌, ◌*◌, ◌^◌, ◌≤◌, ◌<◌, ◌≡◌, refl, ap, sym, ◌∙◌, ◌==◌, Bool, true, false, List, [], ◌∷◌, ◌++◌,
  append-nil, length, length-append, replicate, get_or, join, offset, slice_segment, get_or_segment,
  segment_inside, ap₂, arith, if◌then◌else◌,
}
use icebox.Outcome.{ok, done, index_range, index_range_ok}
use icebox.Bytes.{be_u32, be_u64, read_u32, read_u64}
use icebox.Signature.{copy_into, convert_compact_to_secp}
use icebox.Signature.Compact.{copy_into_lem}
use icebox.Message.WalletPublicKey.{WalletPublicKey}
use icebox.Wallet.Crates.{Crates, hash_sha256}
use icebox.Wallet.Entry.{
  Entry, all_zero, state_of, signed_prefix, verified, signed_entry, interpret,
}
use icebox.Wallet.Layout.{Fits, fields, pad, length-pad}

range_segment :
    (k a b : ℕ) (segments : List (List ℕ))
    → offset k segments ≡ a
    → a + length (get_or segments k []) ≡ b
    → index_range a b (join segments) ≡ ok (get_or segments k [])
range_segment k a b segments ha hb = rw (
  index_range_ok a b (join segments) (omega arith) (omega (arith, segment_inside k segments)),
  slice_segment k a b segments ha hb,
)

-- Four bytes inside a segment.
read_u32_segment :
    (k a j : ℕ) (segments : List (List ℕ))
    → j + 4 ≤ length (get_or segments k [])
    → offset k segments + j ≡ a
    → read_u32 a (join segments) ≡ read_u32 j (get_or segments k [])
read_u32_segment k a j segments h e = rw (
  get_or_segment k a j segments 0 (omega arith) e,
  get_or_segment k (a + 1) (j + 1) segments 0 (omega arith) (omega arith),
  get_or_segment k (a + 2) (j + 2) segments 0 (omega arith) (omega arith),
  get_or_segment k (a + 3) (j + 3) segments 0 (omega arith) (omega arith),
)

pub read-be_u32 : (n : ℕ) → n < 2 ^ 32 → read_u32 0 (be_u32 n) ≡ n
read-be_u32 n h = omega arith

read-be_u64 : (n : ℕ) → n < 2 ^ 64 → read_u64 0 (be_u64 n) ≡ n
read-be_u64 n h = omega arith

flag_read_back : (b : Bool) → (read_u32 0 (be_u32 (if b then 1 else 0)) == 1) ≡ b
flag_read_back true = refl
flag_read_back false = refl

pub length-fields :
    {Address : Type 0} (entry : Entry Address) → Fits entry → length (join (fields entry)) ≡ 272
length-fields entry fits =
    let rest : List ℕ = pad 32 entry.user ++ (pad 80 entry.note ++ (be_u32 0 ++ [])) in
    omega (
      arith,
      fits.trusted_input,
      fits.txid,
      fits.date,
      fits.blockhash,
      length-append entry.trusted_input,
      length-append entry.txid,
      length-append entry.date,
      length-append entry.blockhash,
      length-append (pad 32 entry.user),
      length-append (pad 80 entry.note),
      length-pad 32 entry.user fits.user,
      length-pad 80 entry.note fits.note,
    )

module _ {PublicKey Signature Script Address : Type 0}
    (lib : Crates PublicKey Signature Script Address) (path : List ℕ) (position : ℕ)
    (key : WalletPublicKey PublicKey) where
  verified_lem :
      (sig : List ℕ) (entry : Entry Address) (s : Signature)
      → length sig ≡ 64
      → length (join (fields entry)) ≡ 272
      → convert_compact_to_secp lib.secp sig ≡ ok s
      → verified lib path position key (join (sig ∷ fields entry))
        ≡ ok (
            lib.verify
              (hash_sha256 lib (hash_sha256 lib (signed_prefix ++ join (fields entry))))
              s
              key.public_key)
  unfolding verified
  verified_lem sig entry s h size e =
      let block : List ℕ = join (sig ∷ fields entry) in
      let signed : List ℕ = join (fields entry) in
      let signed_is : index_range 64 336 block ≡ ok signed =
        ap (λ t. index_range 64 336 (sig ++ t)) (sym (append-nil signed))
        ∙ range_segment 1 64 336 (sig ∷ signed ∷ []) (omega arith) (omega arith) in
      let prefix_is : copy_into 0 28 signed_prefix (replicate 300 0)
          ≡ ok (signed_prefix ++ replicate 272 0) =
        copy_into_lem 0 28 [] (replicate 28 0) (replicate 272 0) signed_prefix refl refl refl in
      let zeros : List ℕ = replicate 272 0 in
      let full_is : copy_into 28 300 signed (signed_prefix ++ zeros)
          ≡ ok (signed_prefix ++ signed) =
        ap (λ t. copy_into 28 300 signed (signed_prefix ++ t)) (sym (append-nil zeros))
        ∙ copy_into_lem 28 300 signed_prefix zeros [] signed refl refl (sym size)
        ∙ ap (λ t. ok (signed_prefix ++ t)) (append-nil signed) in
      rw (
        range_segment 0 0 64 (sig ∷ fields entry) refl (omega (arith, h)),
        e,
        prefix_is,
        signed_is,
        full_is,
      )

  -- The entry that comes back.
  abbrev pub read_back : Bool → Address → Entry Address → Entry Address
  read_back is_verified address entry = record entry {
    state = state_of is_verified entry.trusted_input;
    bip32_path = path;
    address = address;
    index = position;
    user = pad 32 entry.user;
    note = pad 80 entry.note;
  }

  pub interpret_lem :
      (sig : List ℕ) (entry : Entry Address) (s : Signature) (address : Address)
      → length sig ≡ 64
      → Fits entry
      → all_zero entry.date ≡ false
      → convert_compact_to_secp lib.secp sig ≡ ok s
      → lib.from_str key.b58_address ≡ done address
      → lib.from_utf8 (pad 32 entry.user) ≡ done (pad 32 entry.user)
      → lib.from_utf8 (pad 80 entry.note) ≡ done (pad 80 entry.note)
      → interpret lib path position key (join (sig ∷ fields entry))
        ≡ ok (
            read_back
              (lib.verify
                (hash_sha256 lib (hash_sha256 lib (signed_prefix ++ join (fields entry))))
                s
                key.public_key)
              address
              entry)
  unfolding interpret signed_entry
  interpret_lem sig entry s address h fits dated is_s is_address is_user is_note =
      let segments : List (List ℕ) = sig ∷ fields entry in
      let lu : length (pad 32 entry.user) ≡ 32 = length-pad 32 entry.user fits.user in
      let ln : length (pad 80 entry.note) ≡ 80 = length-pad 80 entry.note fits.note in
      let s1 : offset 1 segments ≡ 64 = omega (arith, h) in
      let s2 : offset 2 segments ≡ 120 = omega (arith, h, fits.trusted_input) in
      let s3 : offset 3 segments ≡ 152 = omega (arith, s2, fits.txid) in
      let s5 : offset 5 segments ≡ 164 = omega (arith, s3) in
      let s6 : offset 6 segments ≡ 188 = omega (arith, s5, fits.date) in
      let s7 : offset 7 segments ≡ 220 = omega (arith, s6, fits.blockhash) in
      let s8 : offset 8 segments ≡ 252 = omega (arith, s7, lu) in
      let s9 : offset 9 segments ≡ 332 = omega (arith, s8, ln) in
      let vout_is : read_u32 152 (join segments) ≡ entry.vout =
        read_u32_segment 3 152 0 segments (omega arith) (omega (arith, s3))
        ∙ read-be_u32 entry.vout fits.vout in
      let amount_is : read_u64 156 (join segments) ≡ entry.amount =
        ap₂ (λ a b. a * 2 ^ 32 + b)
          (read_u32_segment 4 156 0 segments (omega arith) (omega (arith, s3)))
          (read_u32_segment 4 160 4 segments (omega arith) (omega (arith, s3)))
        ∙ read-be_u64 entry.amount fits.amount in
      let spent_is : (read_u32 332 (join segments) == 1) ≡ entry.spent =
        ap (λ t. t == 1) (read_u32_segment 9 332 0 segments (omega arith) (omega (arith, s9)))
        ∙ flag_read_back entry.spent in
      rw (
        range_segment 5 164 188 segments s5 (omega (arith, fits.date)),
        dated,
        verified_lem sig entry s h (length-fields entry fits) is_s,
        range_segment 1 64 120 segments s1 (omega (arith, fits.trusted_input)),
        range_segment 2 120 152 segments s2 (omega (arith, fits.txid)),
        range_segment 6 188 220 segments s6 (omega (arith, fits.blockhash)),
        is_address,
        range_segment 7 220 252 segments s7 (omega (arith, lu)),
        is_user,
        range_segment 8 252 332 segments s8 (omega (arith, ln)),
        is_note,
        vout_is,
        amount_is,
        spent_is,
      )
