-- ===== src/Message/SignMessagePrepare/Laws.antt =====
-- `SignMessagePrepare` sends the message in parts of the right size, and ends.
use icebox.Prelude.{
  ℕ, ◌+◌, ◌-◌, ◌*◌, ◌%◌, min, ◌≤◌, ◌<◌, ◌≡◌, refl, true, false, ge→ltb, ◌==◌, some, List, ◌∷◌, ◌++◌,
  length, length-append, length-slice, get_or, drop, drop-append_exact, slice, if◌then◌else◌, arith,
}
use icebox.Outcome.{ok, checked_sub_ok, index_range_ok}
use icebox.Constants.{btchip_cla, ins_sign_message, max_apdu_size}
use icebox.Bytes.{be_path, be_u16, length-be_path}
use icebox.Message.SignMessagePrepare.{
  SignMessagePrepare, front, encode_first, encode_more, encode_next,
}

-- The limits that `new` asserts, and that no more is sent than there is.
pub record IsFit (c : SignMessagePrepare) : Type 0 where
  pub path : length c.bip32_path < 11
  pub size : length c.message < 0x10000
  pub inside : c.sent_length ≤ length c.message

-- The part of the message in an APDU: behind the path and the length in the first one.
abbrev pub payload : List ℕ → List ℕ
payload msg = drop (if get_or msg 3 0 == 0x01 then 8 + 4 * get_or msg 5 0 else 5) msg

-- An APDU with the next part of the message, up to position `to`.
pub record SentPart (c : SignMessagePrepare) : Type 0 where
  pub msg : List ℕ
  pub to : ℕ
  pub encoded : encode_next max_apdu_size c ≡ ok (some msg, record c { sent_length = to })
  pub moves : c.sent_length < to
  pub inside : to ≤ length c.message
  pub carries : payload msg ≡ slice c.sent_length to c.message
  pub nonempty : 0 < length msg
  pub small : length msg ≤ max_apdu_size
  pub sealed : get_or msg 4 0 + 5 ≡ length msg

length-front : (c : SignMessagePrepare) → length (front c) ≡ 3 + 4 * length c.bip32_path
length-front c = omega (
  arith,
  length-append (be_path c.bip32_path) (be_u16 (length c.message % 0x10000)),
  length-be_path c.bip32_path,
)

payload_first :
    (c : SignMessagePrepare) (n : ℕ) (part : List ℕ)
    → length c.bip32_path < 11
    → payload (btchip_cla ∷ ins_sign_message ∷ 0x00 ∷ 0x01 ∷ n ∷ (front c ++ part)) ≡ part
payload_first c n part fit =
    drop-append_exact (8 + 4 * (length c.bip32_path % 256))
      (btchip_cla ∷ ins_sign_message ∷ 0x00 ∷ 0x01 ∷ n ∷ front c) part
      (omega (arith, length-front c))

-- The first part.
pub first_part :
    (c : SignMessagePrepare) → IsFit c → c.sent_length ≡ 0 → 0 < length c.message → SentPart c
unfolding encode_next encode_first
first_part c fit start pos =
    let n : ℕ = 1 + 4 * length c.bip32_path + 2 in
    let k : ℕ = min (260 - n - 5) (length c.message) in
    let part : List ℕ = slice 0 k c.message in
    let size : length part ≡ k =
      omega (arith, length-slice 0 k c.message (omega arith) (omega (arith, fit.path))) in
    let begun : (c.sent_length == 0) ≡ true = ground arith in
    let unfinished : (c.sent_length == length c.message) ≡ false = ground arith in
    record {
      msg = btchip_cla ∷ ins_sign_message ∷ 0x00 ∷ 0x01 ∷ ((n + k) % 256) ∷ (front c ++ part);
      to = c.sent_length + k;
      encoded = rw (
        ge→ltb (length c.message) c.sent_length (omega arith),
        begun,
        unfinished,
        checked_sub_ok 260 n (omega (arith, fit.path)),
        checked_sub_ok (260 - n) 5 (omega (arith, fit.path)),
        index_range_ok 0 k c.message (omega arith) (omega arith),
      );
      moves = omega (arith, fit.path);
      inside = omega (arith, fit.path);
      carries = let e : 0 + k ≡ k = omega arith in rw (start, e) (payload_first c _ part fit.path);
      nonempty = omega arith;
      small = omega (arith, fit.path, length-append (front c) part, length-front c);
      sealed = omega (arith, fit.path, length-append (front c) part, length-front c);
    }

-- A later part.
pub next_part :
    (c : SignMessagePrepare)
    → IsFit c
    → 0 < c.sent_length
    → c.sent_length < length c.message
    → SentPart c
unfolding encode_next encode_more
next_part c fit pos more =
    let k : ℕ = min 255 (length c.message - c.sent_length) in
    let part : List ℕ = slice c.sent_length (c.sent_length + k) c.message in
    let size : length part ≡ k = omega (
      arith,
      length-slice c.sent_length (c.sent_length + k) c.message (omega arith) (omega arith),
    ) in
    let begun : (c.sent_length == 0) ≡ false = ground arith in
    let unfinished : (c.sent_length == length c.message) ≡ false = ground arith in
    record {
      msg = btchip_cla ∷ ins_sign_message ∷ 0x00 ∷ 0x80 ∷ (k % 256) ∷ part;
      to = c.sent_length + k;
      encoded = rw (
        ge→ltb (length c.message) c.sent_length (omega arith),
        begun,
        unfinished,
        checked_sub_ok (length c.message) c.sent_length (omega arith),
        checked_sub_ok 260 5 (omega arith),
        index_range_ok c.sent_length (c.sent_length + k) c.message (omega arith) (omega arith),
      );
      moves = omega arith;
      inside = omega arith;
      carries = refl;
      nonempty = omega arith;
      small = omega arith;
      sealed = omega arith;
    }
