-- ===== src/Message/CoinVersions/Laws.antt =====
-- SetAlternateCoinVersions as a command of one APDU, which takes a bare status word alone.

use icebox.Prelude.{ℕ, ◌≡◌, refl, Bool, true, false, List, [], ◌∷◌, ◌++◌, arith}
use icebox.Outcome.{ok, Returns}
use icebox.Constants.{btchip_cla, ins_set_alternate_coin_version}
use icebox.Bytes.{be_u16, status_word}
use icebox.Message.SingleShot.{SingleShot}
use icebox.Message.CoinVersions.{
  SetAlternateCoinVersions, encode_next, decode_reply, into_reply, command,
}

abbrev pub is_nil : List ℕ → Bool
is_nil [] = true
is_nil (x ∷ xs) = false

pub decodes :
    (c : SetAlternateCoinVersions) (body : List ℕ) (sw1 sw2 : ℕ)
    → is_nil body ≡ true
    → decode_reply (body ++ sw1 ∷ sw2 ∷ []) c ≡ (ok tt, record c { sw = status_word sw1 sw2 })
unfolding decode_reply
decodes c [] sw1 sw2 fit = refl
decodes c (x ∷ xs) sw1 sw2 fit = cc

pub replies :
    (c : SetAlternateCoinVersions) (sw : ℕ) (body : List ℕ)
    → is_nil body ≡ true
    → into_reply (record c { sw = sw }) ≡ (sw, body)
unfolding into_reply
replies c sw [] fit = refl
replies c sw (x ∷ xs) fit = cc

pub decode-Returns :
    (c : SetAlternateCoinVersions) (reply : List ℕ) → Returns (decode_reply reply c).0
unfolding decode_reply
decode-Returns c [] = tt
decode-Returns c (a ∷ []) = tt
decode-Returns c (a ∷ b ∷ []) = tt
decode-Returns c (a ∷ b ∷ d ∷ r) = tt

pub sent-decode :
    (c : SetAlternateCoinVersions) (reply : List ℕ) → (decode_reply reply c).1.sent ≡ c.sent
unfolding decode_reply
sent-decode c [] = refl
sent-decode c (a ∷ []) = refl
sent-decode c (a ∷ b ∷ []) = refl
sent-decode c (a ∷ b ∷ d ∷ r) = refl

unfoldable pub single : SingleShot command (λ c. Unit)
unfolding encode_next
single = record {
  sent = λ c. c.sent;
  request = λ c.
      (btchip_cla ∷ ins_set_alternate_coin_version ∷ 0x00 ∷ 0x00 ∷ 0x05 ∷ [])
      ++ (be_u16 c.pubkey_version ++ (be_u16 c.script_version ++ 0x01 ∷ []));
  mark = λ c. record c { sent = true };
  store = λ sw reply c. record c { sw = sw };
  fits = is_nil;
  encodes_first = λ n c e. rw e;
  encodes_end = λ n c e. rw e;
  sent-mark = λ c. refl;
  sent-store = λ c sw body. refl;
  decodes = decodes;
  replies = replies;
  request_size = λ c inv. (omega arith, omega arith);
  mark_keeps = λ c inv. tt;
  decode_returns = decode-Returns;
  decode_keeps = λ c reply inv. tt;
  sent-decode = sent-decode;
}
