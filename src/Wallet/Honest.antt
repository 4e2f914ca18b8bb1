-- ===== src/Wallet/Honest.antt =====
-- src/wallet.rs: what the wallet relies on in the dongle and in other crates, and `encrypt` and
-- `decrypt` on such a dongle.
use icebox.Prelude.{
  ℕ, ◌-◌, ◌≡◌, refl, ap, sym, ap₂, ◌∙◌, Bool, true, false, List, [], ◌++◌, append-nil, length,
  length-append, length-take, length-drop, take, drop, replicate, slice, take-append-drop,
  take-append_exact, drop-append_exact, take_all, length-slice, arith,
}
use icebox.Outcome.{ok, done, index_range_ok}
use icebox.Signature.{copy_into, convert_compact_to_secp}
use icebox.Signature.Compact.{copy_into_lem}
use icebox.Message.CoinVersions.{Network}
use icebox.Message.WalletPublicKey.{WalletPublicKey}
use icebox.Dongle.Trait.{Trait}
use icebox.Wallet.Crates.{Crates, hash_sha256}
use icebox.Wallet.Path.{KeyPurpose, bip32_path, length-bip32_path}
use icebox.Wallet.Cipher.{as_u32, encrypt, decrypt}
use icebox.Wallet.Entry.{signed_prefix}

module _ {H PublicKey Signature Script Address : Type 0}
    (lib : Crates PublicKey Signature Script Address) (dongle : Trait H PublicKey Script) where
  -- The dongle derives the same key from a path of five steps, as those of `bip32_path` are, in every
  -- state, and has random bytes; AES in counter mode keeps the length, and is its own inverse.
  pub record Keyed : Type 0 where
    pub key : List ℕ → WalletPublicKey PublicKey
    pub iv : H → List ℕ
    pub keys :
        (path : List ℕ) (b : Bool) (h : H)
        → length path ≡ 5
        → (dongle.get_public_key path b h).0 ≡ ok (key path)
    pub random : (h : H) → (dongle.get_random 16 h).0 ≡ ok (iv h)
    pub length-iv : (h : H) → length (iv h) ≡ 16
    pub networks : (network : Network) (h : H) → (dongle.set_network network h).0 ≡ ok tt
    pub length-aes_ctr : (k v xs : List ℕ) → length (lib.aes_ctr k v xs) ≡ length xs
    pub aes_ctr_twice : (k v xs : List ℕ) → lib.aes_ctr k v (lib.aes_ctr k v xs) ≡ xs

  -- The user agrees to sign the 272 bytes of an entry under a path of five steps, and secp256k1 accepts
  -- the signature under the key of the path. The address of each key is an address.
  pub record Signing (keyed : Keyed) : Type 0 where
    pub signature : List ℕ → List ℕ → H → List ℕ
    pub signs :
        (msg path : List ℕ) (h : H)
        → length msg ≡ 272
        → length path ≡ 5
        → (dongle.sign_message msg path h).0 ≡ ok (signature msg path h)
    pub length-signature : (msg path : List ℕ) (h : H) → length (signature msg path h) ≡ 64
    pub secp_form : List ℕ → List ℕ → H → Signature
    pub secp_reads :
        (msg path : List ℕ) (h : H)
        → convert_compact_to_secp lib.secp (signature msg path h) ≡ ok (secp_form msg path h)
    pub verifies :
        (msg path : List ℕ) (h : H)
        → length msg ≡ 272
        → lib.verify
            (hash_sha256 lib (hash_sha256 lib (signed_prefix ++ msg)))
            (secp_form msg path h)
            (keyed.key path).public_key
          ≡ true
    pub address : List ℕ → Address
    pub addresses :
        (path : List ℕ) → lib.from_str (keyed.key path).b58_address ≡ done (address path)

  module _ (keyed : Keyed) (network : Network) (account i : ℕ) where
    abbrev pub aes_path : List ℕ
    aes_path = bip32_path network account KeyPurpose.aes_key (as_u32 i)

    five : length aes_path ≡ 5
    five = length-bip32_path network account KeyPurpose.aes_key (as_u32 i)

    -- What a block holds.
    abbrev pub open_block : List ℕ → List ℕ
    open_block block =
        lib.aes_ctr (keyed.key aes_path).chaincode (slice 0 16 block)
          (slice 16 (length block) block)

    -- The block that `encrypt` makes in the state `h`.
    abbrev pub sealed_block : List ℕ → H → List ℕ
    sealed_block input h =
        let iv : List ℕ = keyed.iv (dongle.get_public_key aes_path false h).1 in
        iv ++ lib.aes_ctr (keyed.key aes_path).chaincode iv input

    pub length-open_block : (block : List ℕ) → length block ≡ 352 → length (open_block block) ≡ 336
    length-open_block block size = omega (
      arith,
      keyed.length-aes_ctr (keyed.key aes_path).chaincode (slice 0 16 block)
          (slice 16 (length block) block),
      length-slice 16 (length block) block (omega arith) (omega arith),
    )

    pub decrypt_lem :
        (block : List ℕ) (h : H)
        → length block ≡ 352
        → (decrypt lib dongle network account i block h).0 ≡ ok (open_block block)
    unfolding decrypt
    decrypt_lem block h size =
        let body : List ℕ = open_block block in
        let wide : length body ≡ 336 = length-open_block block size in
        let copied : copy_into 0 336 body (replicate 336 0) ≡ ok body =
          ap (copy_into 0 336 body) (sym (append-nil (replicate 336 0)))
          ∙ copy_into_lem 0 336 [] (replicate 336 0) [] body refl refl (sym wide)
          ∙ ap ok (append-nil body) in
        rw (
          keyed.keys aes_path false h five,
          index_range_ok 0 16 block (omega arith) (omega arith),
          index_range_ok 16 (length block) block (omega arith) (omega arith),
          copied,
        )

    pub encrypt_lem :
        (input output : List ℕ) (h : H)
        → length input ≡ 336
        → length output ≡ 352
        → (encrypt lib dongle network account i input output h).0 ≡ ok (sealed_block input h)
    unfolding encrypt
    encrypt_lem input output h hi ho =
        let h2 : H = (dongle.get_public_key aes_path false h).1 in
        let iv : List ℕ = keyed.iv h2 in
        let body : List ℕ = lib.aes_ctr (keyed.key aes_path).chaincode iv input in
        let back : List ℕ = drop 16 output in
        let lb : length back ≡ 336 = omega (arith, length-drop 16 output) in
        let first : copy_into 0 16 iv output ≡ ok (iv ++ back) =
          ap (copy_into 0 16 iv) (sym (take-append-drop 16 output))
          ∙ copy_into_lem 0 16 [] (take 16 output) back iv refl
              (omega (arith, length-take 16 output))
              (omega (arith, length-take 16 output, keyed.length-iv h2)) in
        let second : copy_into 16 352 body (iv ++ back) ≡ ok (iv ++ body) =
          ap (λ t. copy_into 16 352 body (iv ++ t)) (sym (append-nil back))
          ∙ copy_into_lem 16 352 iv back [] body (keyed.length-iv h2) (omega (arith, lb))
              (omega (arith, lb, keyed.length-aes_ctr (keyed.key aes_path).chaincode iv input))
          ∙ ap (λ t. ok (iv ++ t)) (append-nil body) in
        let wide : length (iv ++ back) ≡ 352 =
          omega (arith, length-append iv back, keyed.length-iv h2, lb) in
        rw (keyed.keys aes_path false h five, keyed.random h2, first, wide, second)

    pub length-sealed_block :
        (input : List ℕ) (h : H) → length input ≡ 336 → length (sealed_block input h) ≡ 352
    length-sealed_block input h hi =
        let h2 : H = (dongle.get_public_key aes_path false h).1 in
        omega (
          arith,
          length-append (keyed.iv h2)
              (lib.aes_ctr (keyed.key aes_path).chaincode (keyed.iv h2) input),
          keyed.length-iv h2,
          keyed.length-aes_ctr (keyed.key aes_path).chaincode (keyed.iv h2) input,
        )

    pub open-sealed_block :
        (input : List ℕ) (h : H) → length input ≡ 336 → open_block (sealed_block input h) ≡ input
    open-sealed_block input h hi =
        let h2 : H = (dongle.get_public_key aes_path false h).1 in
        let iv : List ℕ = keyed.iv h2 in
        let k : List ℕ = (keyed.key aes_path).chaincode in
        let body : List ℕ = lib.aes_ctr k iv input in
        let li : length iv ≡ 16 = keyed.length-iv h2 in
        let front : slice 0 16 (iv ++ body) ≡ iv = take-append_exact 16 iv body li in
        let rest : slice 16 (length (iv ++ body)) (iv ++ body) ≡ body =
          ap (take (length (iv ++ body) - 16)) (drop-append_exact 16 iv body li)
          ∙ take_all (length (iv ++ body) - 16) body (omega (arith, length-append iv body)) in
        ap₂ (λ a b. lib.aes_ctr k a b) front rest ∙ keyed.aes_ctr_twice k iv input

    -- On such a dongle, for the 336 bytes of an entry: `encrypt` into a block of 352 bytes gives a
    -- block of 352 bytes, which `decrypt` with the same network, account and index turns back into
    -- the entry's bytes, in every state of the dongle.
    pub decrypt-encrypt :
        (input output : List ℕ) (h h' : H)
        → length input ≡ 336
        → length output ≡ 352
        → (block : List ℕ) × ((encrypt lib dongle network account i input output h).0 ≡ ok block)
          × (length block ≡ 352)
          × ((decrypt lib dongle network account i block h').0 ≡ ok input)
    decrypt-encrypt input output h h' hi ho =
        let size : length (sealed_block input h) ≡ 352 = length-sealed_block input h hi in
        (
          sealed_block input h,
          encrypt_lem input output h hi ho,
          size,
          decrypt_lem (sealed_block input h) h' size ∙ ap ok (open-sealed_block input h hi),
        )
