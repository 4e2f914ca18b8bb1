-- ===== src/Message/SignMessageSign.antt =====
-- src/dongle/message.rs: `SignMessageSign`.
pub mod Laws
use icebox.Prelude.{
  ℕ, ◌+◌, ◌-◌, ◌*◌, ◌%◌, ◌^◌, ◌≤◌, ◌<◌, ◌≡◌, refl, Bool, true, false, not, ◌||◌, Option, none, some,
  List, [], ◌∷◌, ◌++◌, arith, length, ltb, leb, ◌==◌, if◌then◌else◌, length-append, All,
}
use icebox.Error.{response_wrong_length, unexpected_eof, secp, utf8}
use icebox.Outcome.{
  Outcome, ok, err, panic, diverge, assert, fail_if, index, index_range, Foreign, done, failed,
  from_foreign, Returns, ◌>>=◌, ◌>>◌,
}
use icebox.Constants.{
  btchip_cla, ins_get_wallet_public_key, ins_sign_message, ins_get_random, ins_untrusted_hash_sign,
  ins_set_alternate_coin_version,
}
use icebox.Bytes.{be_u16, be_u32, be_path, length-be_path, status_word}
use icebox.Command.{Command}
use icebox.Message.Status.{
  take_status, and_store, take_status_lem, take_status-Returns, and_store-Returns, and_store_keeps,
}
use icebox.Message.SingleShot.{SingleShot}

pub record SignMessageSign : Type 0 where
  pub sent : Bool
  pub reply : List ℕ
  pub sw : ℕ

unfoldable pub new : SignMessageSign
new = record { sent = false; reply = []; sw = 0 }

unfoldable pub encode_next : ℕ → SignMessageSign → Outcome (Option (List ℕ) × SignMessageSign)
encode_next apdu_size c =
    if c.sent
    then ok (none, c)
    else ok (
      some (btchip_cla ∷ ins_sign_message ∷ 0x80 ∷ 0x00 ∷ 0x01 ∷ 0x00 ∷ []),
      record c { sent = true },
    )

unfoldable pub decode_reply : List ℕ → SignMessageSign → Outcome (Unit {0}) × SignMessageSign
decode_reply bytes c =
    and_store (take_status bytes) (λ sw reply. record c { reply = reply; sw = sw }) c

unfoldable pub into_reply : SignMessageSign → ℕ × List ℕ
into_reply c = (c.sw, c.reply)

abbrev pub command : Command SignMessageSign
command = record { encode_next = encode_next; decode_reply = decode_reply; into_reply = into_reply }
