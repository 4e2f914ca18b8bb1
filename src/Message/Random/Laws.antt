-- ===== src/Message/Random/Laws.antt =====
-- GetRandom as a command of one APDU.

use icebox.Prelude.{ℕ, ◌≡◌, refl, true, List, [], ◌∷◌, arith}
use icebox.Constants.{btchip_cla, ins_get_random}
use icebox.Message.Status.{
  take_status, and_store, take_status_lem, take_status-Returns, and_store-Returns, and_store_keeps,
}
use icebox.Message.SingleShot.{SingleShot}
use icebox.Message.Random.{GetRandom, encode_next, decode_reply, into_reply, command}

abbrev pub IsFit : GetRandom → Type 0
IsFit c = Unit

abbrev pub request : GetRandom → List ℕ
request c = btchip_cla ∷ ins_get_random ∷ 0x00 ∷ 0x00 ∷ c.count ∷ []

unfoldable pub single : SingleShot command IsFit
unfolding encode_next decode_reply into_reply and_store
single = record {
  sent = λ c. c.sent;
  request = request;
  mark = λ c. record c { sent = true };
  store = λ sw reply c. record c { reply = reply; sw = sw };
  fits = λ body. true;
  encodes_first = λ n c e. rw e;
  encodes_end = λ n c e. rw e;
  sent-mark = λ c. refl;
  sent-store = λ c sw body. refl;
  decodes = λ c body sw1 sw2 fit. rw take_status_lem;
  replies = λ c sw body fit. refl;
  request_size = λ c inv. (omega arith, omega arith);
  mark_keeps = λ c inv. inv;
  decode_returns = λ c reply. and_store-Returns (take_status reply) _ c (take_status-Returns reply);
  decode_keeps = λ c reply inv. tt;
  sent-decode =
      λ c reply. and_store_keeps (λ d. d.sent ≡ c.sent) (take_status reply) _ c refl (λ sw r. refl);
}
