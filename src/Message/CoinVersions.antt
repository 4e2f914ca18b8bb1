-- ===== src/Message/CoinVersions.antt =====
-- src/dongle/message.rs: `SetAlternateCoinVersions`. `Network` is the bitcoin crate's enum.
pub mod Laws
use icebox.Prelude.{
  ℕ, ◌+◌, ◌-◌, ◌*◌, ◌%◌, ◌^◌, ◌≤◌, ◌<◌, ◌≡◌, refl, Bool, true, false, not, ◌||◌, Option, none, some,
  List, [], ◌∷◌, ◌++◌, arith, length, ltb, leb, ◌==◌, if◌then◌else◌, length-append, All,
}
use icebox.Error.{response_wrong_length, unexpected_eof, secp, utf8}
use icebox.Outcome.{
  Outcome, ok, err, panic, diverge, assert, fail_if, index, index_range, Foreign, done, failed,
  from_foreign, Returns, ◌>>=◌, ◌>>◌,
}
use icebox.Constants.{
  btchip_cla, ins_get_wallet_public_key, ins_sign_message, ins_get_random, ins_untrusted_hash_sign,
  ins_set_alternate_coin_version,
}
use icebox.Bytes.{be_u16, be_u32, be_path, length-be_path, status_word}
use icebox.Command.{Command}
use icebox.Message.Status.{
  take_status, and_store, take_status_lem, take_status-Returns, and_store-Returns, and_store_keeps,
}
use icebox.Message.SingleShot.{SingleShot}

pub data Network : Type 0 where
  bitcoin testnet regtest : Network

pub record SetAlternateCoinVersions : Type 0 where
  pub sent : Bool
  pub sw : ℕ
  pub pubkey_version : ℕ
  pub script_version : ℕ

unfoldable pub new : Network → SetAlternateCoinVersions
new Network.bitcoin = record { sent = false; sw = 0; pubkey_version = 0; script_version = 5 }
new Network.testnet = record { sent = false; sw = 0; pubkey_version = 111; script_version = 196 }
new Network.regtest = record { sent = false; sw = 0; pubkey_version = 111; script_version = 196 }

unfoldable pub encode_next :
    ℕ → SetAlternateCoinVersions → Outcome (Option (List ℕ) × SetAlternateCoinVersions)
encode_next apdu_size c =
    if c.sent
    then ok (none, c)
    else ok (
      some (
          (btchip_cla ∷ ins_set_alternate_coin_version ∷ 0x00 ∷ 0x00 ∷ 0x05 ∷ [])
          ++ (be_u16 c.pubkey_version ++ (be_u16 c.script_version ++ 0x01 ∷ []))),
      record c { sent = true },
    )

-- Only a bare status word is taken.
unfoldable pub decode_reply :
    List ℕ → SetAlternateCoinVersions → Outcome (Unit {0}) × SetAlternateCoinVersions
decode_reply (sw1 ∷ sw2 ∷ []) c = (ok tt, record c { sw = status_word sw1 sw2 })
decode_reply _ c = (err unexpected_eof, c)

unfoldable pub into_reply : SetAlternateCoinVersions → ℕ × List ℕ
into_reply c = (c.sw, [])

abbrev pub command : Command SetAlternateCoinVersions
command = record { encode_next = encode_next; decode_reply = decode_reply; into_reply = into_reply }
