-- ===== src/Signature.antt =====
-- src/util.rs: the conversions between the dongle's signatures, the compact form and DER. The
-- functions of secp256k1 are parameters.
pub mod Compact
pub mod Negated
use icebox.Prelude.{
  ℕ, ◌+◌, ◌-◌, ltb, ◌==◌, ◌||◌, List, [], ◌∷◌, ◌++◌, length, take, drop, replicate, if◌then◌else◌,
}
use icebox.Error.{secp, bad_signature}
use icebox.Outcome.{
  Foreign, Outcome, ok, err, panic, from_foreign, fail_if, assert, checked_sub, index, index_range,
  ◌>>=◌, ◌>>◌,
}

-- `SecretKey::from_slice` and `mul_assign` on the 32 bytes of the keys, and `from_der_lax` followed
-- by `normalize_s`.
pub record Secp (Signature : Type 0) : Type 0 where
  pub secret_key : List ℕ → Foreign (List ℕ)
  pub mul_assign : List ℕ → List ℕ → Foreign (List ℕ)
  pub from_der_lax : List ℕ → Foreign Signature
  pub normalize_s : Signature → Signature

abbrev pub neg_one : List ℕ
neg_one =
    0xff ∷ 0xff ∷ 0xff ∷ 0xff ∷ 0xff ∷ 0xff ∷ 0xff ∷ 0xff ∷ 0xff ∷ 0xff ∷ 0xff ∷ 0xff ∷ 0xff ∷ 0xff
    ∷ 0xff ∷ 0xfe ∷ 0xba ∷ 0xae ∷ 0xdc ∷ 0xe6 ∷ 0xaf ∷ 0x48 ∷ 0xa0 ∷ 0x3b ∷ 0xbf ∷ 0xd2 ∷ 0x5e
    ∷ 0x8c ∷ 0xd0 ∷ 0x36 ∷ 0x41 ∷ 0x40 ∷ []

-- `ret[a..b].copy_from_slice(bytes)`
unfoldable pub copy_into : ℕ → ℕ → List ℕ → List ℕ → Outcome (List ℕ)
copy_into a b bytes ret = do
  old ← index_range a b ret
  assert (length old == length bytes)
  ok (take a ret ++ (bytes ++ drop b ret))

-- `unwrap()` on a result of secp256k1.
abbrev pub unwrap : {A : Type 0} → Foreign A → Outcome A
unwrap (Foreign.done a) = ok a
unwrap (Foreign.failed e) = panic

module _ {Signature : Type 0} (lib : Secp Signature) where
  -- `r` in 32 bytes or fewer: both numbers are padded.
  unfoldable pub compact_short : List ℕ → ℕ → ℕ → Outcome (List ℕ)
  compact_short sig r_len s_len = do
    let s_off = 6 + r_len
    r_at ← checked_sub 32 r_len
    r ← index_range 4 (4 + r_len) sig
    ret ← copy_into r_at 32 r (replicate 64 0)
    s_at ← checked_sub 64 s_len
    s ← index_range s_off (s_off + s_len) sig
    copy_into s_at 64 s ret

  -- `r` in 33 bytes: its first byte is dropped, and `s` is negated.
  unfoldable pub compact_long : List ℕ → ℕ → ℕ → Outcome (List ℕ)
  compact_long sig r_len s_len = do
    let s_off = 6 + r_len
    assert (r_len == 33)
    neg_one ← unwrap (lib.secret_key neg_one)
    s_at ← checked_sub 32 s_len
    s ← index_range s_off (s_off + s_len) sig
    s_arr ← copy_into s_at 32 s (replicate 32 0)
    s_sk ← from_foreign secp (lib.secret_key s_arr)
    s_sk ← from_foreign secp (lib.mul_assign s_sk neg_one)
    r ← index_range (4 + 1) (4 + r_len) sig
    ret ← copy_into 0 32 r (replicate 64 0)
    copy_into 32 64 s_sk ret

  unfoldable pub convert_ledger_der_to_compact : List ℕ → Outcome (List ℕ)
  convert_ledger_der_to_compact sig = do
    r_len ← index sig 3
    s_len ← index sig (5 + r_len)
    fail_if (ltb 32 s_len || ltb 33 r_len) bad_signature
    if ltb r_len 33 then compact_short sig r_len s_len else compact_long sig r_len s_len

  -- The 70 bytes of DER that stand for a compact signature.
  unfoldable pub der_of_compact : List ℕ → Outcome (List ℕ)
  der_of_compact sig = do
    r ← index_range 0 32 sig
    s ← index_range 32 64 sig
    ok (0x30 ∷ 0x44 ∷ 0x02 ∷ 0x20 ∷ (r ++ (0x02 ∷ 0x20 ∷ s)))

  unfoldable pub convert_compact_to_secp : List ℕ → Outcome Signature
  convert_compact_to_secp sig = do
    rv ← der_of_compact sig
    sig ← from_foreign secp (lib.from_der_lax rv)
    ok (lib.normalize_s sig)

-- `base64::encode` of 31 and the signature.
unfoldable pub convert_compact_to_signmessage_rpc : (List ℕ → List ℕ) → List ℕ → Outcome (List ℕ)
convert_compact_to_signmessage_rpc base64_encode sig = ok (base64_encode (31 ∷ sig))
