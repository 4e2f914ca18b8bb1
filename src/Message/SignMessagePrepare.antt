-- ===== src/Message/SignMessagePrepare.antt =====
-- src/dongle/message.rs: `SignMessagePrepare`.
pub mod Laws
pub mod Whole
use icebox.Prelude.{
  ℕ, ◌+◌, ◌-◌, ◌*◌, ◌%◌, min, ltb, ◌==◌, not, Option, none, some, List, [], ◌∷◌, ◌++◌, length, take,
  drop, slice, if◌then◌else◌,
}
use icebox.Error.{unsupported, apdu_bad_status}
use icebox.Outcome.{Outcome, ok, err, panic, diverge, assert, checked_sub, index_range, ◌>>=◌, ◌>>◌}
use icebox.Constants.{btchip_cla, ins_sign_message, sw_ok}
use icebox.Bytes.{be_u16, be_path}
use icebox.Command.{Command}
use icebox.Message.Status.{take_status}

pub record SignMessagePrepare : Type 0 where
  pub sent_length : ℕ
  pub reply : List ℕ
  pub sw : ℕ
  pub bip32_path : List ℕ
  pub message : List ℕ

unfoldable pub new : List ℕ → List ℕ → Outcome SignMessagePrepare
new bip32_path message = do
  assert (ltb (length bip32_path) 11)
  assert (ltb (length message) 0x10000)
  ok (record { sent_length = 0; reply = []; sw = 0; bip32_path = bip32_path; message = message })

-- The bytes in front of the first part: the path behind its length, and the message's length.
abbrev pub front : SignMessagePrepare → List ℕ
front c =
    (length c.bip32_path % 256) ∷ (be_path c.bip32_path ++ be_u16 (length c.message % 0x10000))

unfoldable pub encode_first : ℕ → SignMessagePrepare → Outcome (List ℕ × SignMessagePrepare)
encode_first apdu_size c = do
  let init_data_len = 1 + 4 * length c.bip32_path + 2
  data_space ← checked_sub apdu_size init_data_len
  space ← checked_sub data_space 5
  let message_len = min space (length c.message)
  let packet_len = init_data_len + message_len
  part ← index_range 0 message_len c.message
  ok (
    btchip_cla ∷ ins_sign_message ∷ 0x00 ∷ 0x01 ∷ (packet_len % 256) ∷ (front c ++ part),
    record c { sent_length = c.sent_length + message_len },
  )

unfoldable pub encode_more : ℕ → SignMessagePrepare → Outcome (List ℕ × SignMessagePrepare)
encode_more apdu_size c = do
  remaining_len ← checked_sub (length c.message) c.sent_length
  space ← checked_sub apdu_size 5
  let packet_len = min space remaining_len
  part ← index_range c.sent_length (c.sent_length + packet_len) c.message
  ok (
    btchip_cla ∷ ins_sign_message ∷ 0x00 ∷ 0x80 ∷ (packet_len % 256) ∷ part,
    record c { sent_length = c.sent_length + packet_len },
  )

unfoldable pub encode_next : ℕ → SignMessagePrepare → Outcome (Option (List ℕ) × SignMessagePrepare)
encode_next apdu_size c = do
  assert (not (ltb (length c.message) c.sent_length))
  let packet = if c.sent_length == 0 then encode_first apdu_size c else encode_more apdu_size c
  let next = (do (msg, c') ← packet; ok (some msg, c'))
  if c.sent_length == length c.message then ok (none, c) else next

-- More than two bytes before the status word are refused and not stored; any status word is stored,
-- and then refused unless it is 0x9000.
unfoldable pub store_reply :
    Outcome (ℕ × List ℕ) → SignMessagePrepare → Outcome (Unit {0}) × SignMessagePrepare
store_reply (ok (sw, reply)) c = if ltb 2 (length reply) then (err unsupported, c) else (
  (if not (sw == sw_ok) then err (apdu_bad_status sw) else ok tt),
  record c { reply = reply; sw = sw },
)
store_reply (err e) c = (err e, c)
store_reply panic c = (panic, c)
store_reply diverge c = (diverge, c)

unfoldable pub decode_reply : List ℕ → SignMessagePrepare → Outcome (Unit {0}) × SignMessagePrepare
decode_reply bytes c = store_reply (take_status bytes) c

unfoldable pub into_reply : SignMessagePrepare → ℕ × List ℕ
into_reply c = (c.sw, c.reply)

abbrev pub command : Command SignMessagePrepare
command = record { encode_next = encode_next; decode_reply = decode_reply; into_reply = into_reply }
