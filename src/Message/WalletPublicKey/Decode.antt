-- ===== src/Message/WalletPublicKey/Decode.antt =====
-- `WalletPublicKey::decode`: the replies that it takes, and that it ends in no panic on a reply that
-- has a byte.
use icebox.Prelude.{
  append-nil, ◌∙◌, subst, get_or-append, slice_between, append_assoc, sym, ℕ, ◌+◌, ◌-◌, ◌≤◌, ◌∙◌,
  ◌≡◌, refl, ap, not, true, ltb, ltb→ge, ge→ltb, ◌==◌, List, [], ◌∷◌, ◌++◌, length, slice, get_or,
  arith, length-append, take-append_exact, length-slice,
}
use icebox.Message.WalletPublicKey.{index_range, KeyCodec, clone_chaincode, decode}
use icebox.Outcome.{
  done, ok, Returns, ◌>>=◌, >>=-Returns, fail_if-Returns, from_foreign-Returns, from_foreign,
  index_ok, index_range_ok,
}
use icebox.Error.{unexpected_eof, secp, utf8}

-- The reply for a key, an address and a chaincode: the first two behind their lengths.
abbrev pub reply_bytes : List ℕ → List ℕ → List ℕ → List ℕ
reply_bytes key addr chaincode = length key ∷ (key ++ (length addr ∷ (addr ++ chaincode)))

key_slice : (key rest : List ℕ) (k : ℕ) → slice 1 (1 + length key) (k ∷ (key ++ rest)) ≡ key
key_slice key rest k =
    let e : 1 + length key - 1 ≡ length key = omega arith in
    rw e (take-append_exact (length key) key rest refl)

module _ {PublicKey : Type 0} (codec : KeyCodec PublicKey) where
  chaincode-Returns :
      {B : Type 0} (start : ℕ) (bytes : List ℕ)
      → start + 32 ≡ length bytes
      → (f : List ℕ → B)
      → Returns (
          index_range start (length bytes) bytes >>= λ rest. clone_chaincode rest >>= λ c. ok (f c))
  unfolding clone_chaincode
  chaincode-Returns start bytes whole f =
      let size : length (slice start (length bytes) bytes) ≡ 32 =
        omega (arith, length-slice start (length bytes) bytes (omega arith) (omega arith)) in
      let is : (length (slice start (length bytes) bytes) == 32) ≡ true = ground arith in
      rw (index_range_ok start (length bytes) bytes (omega arith) (omega arith), is) tt

  -- Decoding a reply of one byte or more ends with a key or an error, never in a panic, whatever
  -- secp256k1 and UTF-8 decoding answer.
  pub decode-Returns : (b : ℕ) (bs : List ℕ) → Returns (decode codec (b ∷ bs))
  unfolding decode clone_chaincode
  decode-Returns b bs =
      let n : ℕ = length (b ∷ bs) in
      let len : ℕ = get_or (b ∷ bs) (1 + b) 0 in
      let start : ℕ = 2 + b + len in
      rw (index_ok (b ∷ bs) 0 0 (omega arith)) (
        fail_if-Returns (ltb n (2 + b)) unexpected_eof _ λ room.
          let inside : 2 + b ≤ n = ltb→ge n (2 + b) room in
          rw (index_range_ok 1 (1 + b) (b ∷ bs) (omega arith) (omega arith)) (
            >>=-Returns (from_foreign secp (codec.from_slice (slice 1 (1 + b) (b ∷ bs)))) _
              (from_foreign-Returns secp _)
              λ pk _. rw (index_ok (b ∷ bs) (1 + b) 0 (omega arith)) (
                fail_if-Returns (not (start + 32 == n)) _ _ λ exact.
                  let whole : start + 32 ≡ n = ground arith in
                  rw (index_range_ok (2 + b) start (b ∷ bs) (omega arith) (omega arith)) (
                    >>=-Returns (from_foreign utf8 (codec.from_utf8 (slice (2 + b) start (b ∷ bs))))
                      _ (from_foreign-Returns utf8 _)
                      λ addr _. chaincode-Returns start (b ∷ bs) whole _))))

  -- A reply with a key, an address and a chaincode of 32 bytes, the first two behind their lengths,
  -- is decoded to these, if secp256k1 takes the key and the address is UTF-8.
  pub decode_lem :
      (key addr chaincode text : List ℕ) (pk : PublicKey)
      → codec.from_slice key ≡ done pk
      → codec.from_utf8 addr ≡ done text
      → length chaincode ≡ 32
      → decode codec (reply_bytes key addr chaincode)
        ≡ ok (record { public_key = pk; b58_address = text; chaincode = chaincode })
  unfolding decode clone_chaincode
  decode_lem key addr chaincode text pk is_key is_text size =
      let bytes : List ℕ = reply_bytes key addr chaincode in
      let k : ℕ = length key in
      let a : ℕ = length addr in
      let front : List ℕ = k ∷ (key ++ (a ∷ [])) in
      let n : length bytes ≡ 2 + k + a + 32 =
        omega (arith, length-append key (a ∷ (addr ++ chaincode)), length-append addr chaincode) in
      let split : bytes ≡ front ++ (addr ++ chaincode) =
        ap (λ t. k ∷ t) (sym (append_assoc key (a ∷ []) (addr ++ chaincode))) in
      let front_size : length front ≡ 2 + k = omega (arith, length-append key (a ∷ [])) in
      let is_addr : slice (2 + k) (2 + k + a) bytes ≡ addr =
        rw split (slice_between (2 + k) (2 + k + a) front addr chaincode front_size refl) in
      let is_chaincode : slice (2 + k + a) (length bytes) bytes ≡ chaincode =
        subst (λ t. slice (2 + k + a) (length bytes) t ≡ chaincode)
          (sym (
            split
            ∙ sym (append_assoc front addr chaincode)
            ∙ ap (λ t. (front ++ addr) ++ t) (sym (append-nil chaincode))))
          (slice_between (2 + k + a) (length bytes) (front ++ addr) chaincode []
            (omega (arith, length-append front addr)) (omega arith)) in
      let exact : (2 + k + a + 32 == length bytes) ≡ true = ground arith in
      let cloned : (length chaincode == 32) ≡ true = ground arith in
      let is_len : get_or bytes (1 + k) 0 ≡ a =
        get_or-append (k ∷ key) (addr ++ chaincode) a 0 (1 + k) (omega arith) in
      rw (
        index_ok bytes 0 0 (omega arith),
        ge→ltb (length bytes) (2 + k) (omega arith),
        index_range_ok 1 (1 + k) bytes (omega arith) (omega arith),
        key_slice key (a ∷ (addr ++ chaincode)) k,
        is_key,
        index_ok bytes (1 + k) 0 (omega arith),
        is_len,
        exact,
        index_range_ok (2 + k) (2 + k + a) bytes (omega arith) (omega arith),
        is_addr,
        is_text,
        index_range_ok (2 + k + a) (length bytes) bytes (omega arith) (omega arith),
        is_chaincode,
        cloned,
      )
