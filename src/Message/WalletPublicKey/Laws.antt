-- ===== src/Message/WalletPublicKey/Laws.antt =====
-- GetWalletPublicKey as a command of one APDU.

use icebox.Prelude.{◌≤◌, ◌<◌, ◌≡◌, refl, true, arith, length}
use icebox.Bytes.{length-be_path}
use icebox.Message.Status.{
  take_status, and_store, take_status_lem, take_status-Returns, and_store-Returns, and_store_keeps,
}
use icebox.Message.SingleShot.{SingleShot}
use icebox.Message.WalletPublicKey.{
  GetWalletPublicKey, request, encode_next, decode_reply, into_reply, command,
}

abbrev pub IsFit : GetWalletPublicKey → Type 0
IsFit c = length c.bip32_path < 11

-- The request has at most 260 bytes.
pub request_size :
    (c : GetWalletPublicKey) → IsFit c → (0 < length (request c)) × (length (request c) ≤ 260)
unfolding request
request_size c fit = omega (arith, length-be_path c.bip32_path)

unfoldable pub single : SingleShot command IsFit
unfolding encode_next decode_reply into_reply and_store
single = record {
  sent = λ c. c.sent;
  request = request;
  mark = λ c. record c { sent = true };
  store = λ sw reply c. record c { reply = reply; sw = sw };
  fits = λ body. true;
  encodes_first = λ n c e. rw e;
  encodes_end = λ n c e. rw e;
  sent-mark = λ c. refl;
  sent-store = λ c sw body. refl;
  decodes = λ c body sw1 sw2 fit. rw take_status_lem;
  replies = λ c sw body fit. refl;
  request_size = request_size;
  mark_keeps = λ c inv. inv;
  decode_returns = λ c reply. and_store-Returns (take_status reply) _ c (take_status-Returns reply);
  decode_keeps = λ c reply inv. and_store_keeps IsFit (take_status reply) _ c inv (λ sw r. inv);
  sent-decode =
      λ c reply. and_store_keeps (λ d. d.sent ≡ c.sent) (take_status reply) _ c refl (λ sw r. refl);
}
