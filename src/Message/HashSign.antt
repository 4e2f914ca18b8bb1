-- ===== src/Message/HashSign.antt =====
-- src/dongle/message.rs: `UntrustedHashSign`. `sighash` is the number of the SigHashType.
pub mod Laws
use icebox.Prelude.{
  ℕ, ◌+◌, ◌-◌, ◌*◌, ◌%◌, ◌^◌, ◌≤◌, ◌<◌, ◌≡◌, refl, Bool, true, false, not, ◌||◌, Option, none, some,
  List, [], ◌∷◌, ◌++◌, arith, length, ltb, leb, ◌==◌, if◌then◌else◌, length-append, All,
}
use icebox.Error.{response_wrong_length, unexpected_eof, secp, utf8}
use icebox.Outcome.{
  Outcome, ok, err, panic, diverge, assert, fail_if, index, index_range, Foreign, done, failed,
  from_foreign, Returns, ◌>>=◌, ◌>>◌,
}
use icebox.Constants.{
  btchip_cla, ins_get_wallet_public_key, ins_sign_message, ins_get_random, ins_untrusted_hash_sign,
  ins_set_alternate_coin_version,
}
use icebox.Bytes.{be_u16, be_u32, be_path, length-be_path, status_word}
use icebox.Command.{Command}
use icebox.Message.Status.{
  take_status, and_store, take_status_lem, take_status-Returns, and_store-Returns, and_store_keeps,
}
use icebox.Message.SingleShot.{SingleShot}

pub record UntrustedHashSign : Type 0 where
  pub sent : Bool
  pub reply : List ℕ
  pub sw : ℕ
  pub bip32_path : List ℕ
  pub sighash : ℕ
  pub locktime : ℕ

unfoldable pub new : List ℕ → ℕ → ℕ → Outcome UntrustedHashSign
new bip32_path sighash locktime = do
  assert (ltb (length bip32_path) 11)
  ok (record {
    sent = false;
    reply = [];
    sw = 0;
    bip32_path = bip32_path;
    sighash = sighash;
    locktime = locktime;
  })

-- The APDU: the header, the length of what follows, the path, the user validation code, the lock
-- time and the sighash type.
unfoldable pub request : UntrustedHashSign → List ℕ
request c =
    (btchip_cla
      ∷ ins_untrusted_hash_sign
      ∷ 0x00
      ∷ 0x00
      ∷ ((1 + 4 * length c.bip32_path + 6) % 256)
      ∷ (length c.bip32_path % 256)
      ∷ be_path c.bip32_path)
    ++ (0x00 ∷ be_u32 c.locktime)
    ++ ((c.sighash % 256) ∷ [])

unfoldable pub encode_next : ℕ → UntrustedHashSign → Outcome (Option (List ℕ) × UntrustedHashSign)
unfolding request
encode_next apdu_size c =
    if c.sent then ok (none, c) else ok (some (request c), record c { sent = true })

unfoldable pub decode_reply : List ℕ → UntrustedHashSign → Outcome (Unit {0}) × UntrustedHashSign
decode_reply bytes c =
    and_store (take_status bytes) (λ sw reply. record c { reply = reply; sw = sw }) c

unfoldable pub into_reply : UntrustedHashSign → ℕ × List ℕ
into_reply c = (c.sw, c.reply)

abbrev pub command : Command UntrustedHashSign
command = record { encode_next = encode_next; decode_reply = decode_reply; into_reply = into_reply }
