-- ===== src/Message/SignMessagePrepare/Whole.antt =====
-- What `SignMessagePrepare` sends for a message, its end, and the replies that it takes.
use icebox.Prelude.{
  lt→ltb, ◌∙◌, ℕ, zero, suc, ◌+◌, ◌-◌, ◌≤◌, ◌<◌, ◌≡◌, ◌⊎◌, inl, inr, true, ltb, ltb→lt, ltb→ge,
  ge→ltb, ◌==◌, Bool-cases, none, List, [], ◌∷◌, length, get_or, slice, slice-append, slice_empty,
  take_all, arith, All,
}
use icebox.Outcome.{Outcome, ok, err, panic, diverge, Returns}
use icebox.Constants.{max_apdu_size, sw_ok}
use icebox.Command.Exchange.{Encoded, Progresses}
use icebox.Command.Transcript.{transcript}
use icebox.Cutpoints.Whole.{concat_map}
use icebox.Message.Status.{take_status, take_status-Returns}
use icebox.Message.SignMessagePrepare.{
  SignMessagePrepare, new, encode_next, store_reply, decode_reply, command,
}
use icebox.Message.SignMessagePrepare.Laws.{IsFit, payload, SentPart, first_part, next_part}

-- An APDU of at most 260 bytes, whose fifth byte is the number of the bytes behind it.
abbrev pub IsApdu : List ℕ → Type 0
IsApdu msg = (length msg ≤ max_apdu_size) × (get_or msg 4 0 + 5 ≡ length msg)

abbrev pub left : SignMessagePrepare → ℕ
left c = length c.message - c.sent_length

encodes_end :
    (c : SignMessagePrepare)
    → c.sent_length ≡ length c.message
    → encode_next max_apdu_size c ≡ ok (none, c)
unfolding encode_next
encodes_end c end =
    let all : (c.sent_length == length c.message) ≡ true = ground arith in
    rw (ge→ltb (length c.message) c.sent_length (omega arith), all)

part : (c : SignMessagePrepare) → IsFit c → c.sent_length < length c.message → SentPart c
part c fit more = elim (Bool-cases (ltb 0 c.sent_length)) [
  | inl begun ↦ next_part c fit (ltb→lt _ _ begun) more
  | inr new ↦
      let zero : c.sent_length ≤ 0 = ltb→ge 0 c.sent_length new in
      first_part c fit (omega arith) (omega arith)
]

position :
    (c : SignMessagePrepare)
    → IsFit c
    → (c.sent_length ≡ length c.message) ⊎ (c.sent_length < length c.message)
position c fit = omega (arith, fit.inside)

advance :
    (c : SignMessagePrepare) → IsFit c → (x : SentPart c) → IsFit (record c { sent_length = x.to })
advance c fit x = record { path = fit.path; size = fit.size; inside = x.inside }

-- What is sent from a state on.
record Sends (fuel : ℕ) (c : SignMessagePrepare) : Type 0 where
  msgs : List (List ℕ)
  sent : transcript command fuel c ≡ ok msgs
  carried : concat_map payload msgs ≡ slice c.sent_length (length c.message) c.message
  apdus : All IsApdu msgs

Sends-end :
    (fuel : ℕ) (c : SignMessagePrepare) → c.sent_length ≡ length c.message → Sends (suc fuel) c
unfolding transcript
Sends-end fuel c end = record {
  msgs = [];
  sent = rw (encodes_end c end);
  carried = rw (end, slice_empty);
  apdus = tt;
}

Sends-more :
    (fuel : ℕ) (c : SignMessagePrepare) (x : SentPart c)
    → Sends fuel (record c { sent_length = x.to })
    → Sends (suc fuel) c
unfolding transcript
Sends-more fuel c x y = record {
  msgs = x.msg ∷ y.msgs;
  sent = rw (x.encoded, y.sent);
  carried =
      rw (x.carries, y.carried)
        (slice-append c.sent_length x.to (length c.message) c.message (omega (arith, x.moves))
          x.inside);
  apdus = ((x.small, x.sealed), y.apdus);
}

sends : (fuel : ℕ) (c : SignMessagePrepare) → IsFit c → left c < fuel → Sends fuel c
sends zero c fit h = absurd (omega arith)
sends (suc fuel) c fit h = elim (position c fit) [
  | inl end ↦ Sends-end fuel c end
  | inr more ↦
      let x = part c fit more in
      Sends-more fuel c x (sends fuel _ (advance c fit x) (omega (arith, x.moves)))
]

-- For every path of at most 10 steps and every message of less than 65536 bytes: `new` succeeds,
-- and with more fuel than the message has bytes, the APDUs that the command sends have at most
-- 260 bytes, each with its length in the fifth byte, and their parts of the message are the
-- message in order; then it ends.
pub sign_message_sends :
    (path message : List ℕ) (fuel : ℕ)
    → length path < 11
    → length message < 0x10000
    → length message < fuel
    → (c : SignMessagePrepare) × (new path message ≡ ok c)
      × ((msgs : List (List ℕ)) × (transcript command fuel c ≡ ok msgs)
          × (concat_map payload msgs ≡ message)
          × All IsApdu msgs)
unfolding new
sign_message_sends path message fuel short small enough =
    let c : SignMessagePrepare = record {
      sent_length = 0;
      reply = [];
      sw = 0;
      bip32_path = path;
      message = message;
    } in
    let fit : IsFit c = record { path = short; size = small; inside = omega arith } in
    let x = sends fuel c fit (omega arith) in
    (
      c,
      rw (lt→ltb (length path) 11 short, lt→ltb (length message) 0x10000 small),
      (x.msgs, x.sent, x.carried ∙ take_all (length message - 0) message (omega arith), x.apdus),
    )

store_reply-Returns :
    (o : Outcome (ℕ × List ℕ)) (c : SignMessagePrepare) → Returns o → Returns (store_reply o c).0
unfolding store_reply
store_reply-Returns (ok (sw, reply)) c r = elim (Bool-cases (ltb 2 (length reply))) [
  | inl long ↦ rw long tt
  | inr fits ↦ elim (Bool-cases (sw == sw_ok)) [ inl e ↦ rw (fits, e) tt | inr e ↦ rw (fits, e) tt ]
]
store_reply-Returns (err e) c r = tt
store_reply-Returns panic c r = r
store_reply-Returns diverge c r = r

store_reply_keeps :
    (P : SignMessagePrepare → Type 0) (o : Outcome (ℕ × List ℕ)) (c : SignMessagePrepare)
    → P c
    → ((sw : ℕ) (reply : List ℕ) → P (record c { reply = reply; sw = sw }))
    → P (store_reply o c).1
unfolding store_reply
store_reply_keeps P (ok (sw, reply)) c p q = elim (Bool-cases (ltb 2 (length reply))) [
  | inl long ↦ rw long p
  | inr fits ↦ rw fits (q sw reply)
]
store_reply_keeps P (err e) c p q = p
store_reply_keeps P panic c p q = p
store_reply_keeps P diverge c p q = p

Encoded-left :
    (c : SignMessagePrepare) → IsFit c → Encoded command IsFit left c (encode_next max_apdu_size c)
Encoded-left c fit = elim (position c fit) [
  | inl end ↦ rw (encodes_end c end) tt
  | inr more ↦
      let x = part c fit more in
      rw x.encoded (x.nonempty, x.small, advance c fit x, omega (arith, x.moves))
]

pub SignMessagePrepare-Progresses : Progresses command IsFit left
unfolding decode_reply
SignMessagePrepare-Progresses = record {
  encodes = Encoded-left;
  decodes = λ c reply fit. store_reply-Returns (take_status reply) c (take_status-Returns reply);
  keeps = λ c reply fit.
      store_reply_keeps IsFit (take_status reply) c fit
        λ sw r. record { path = fit.path; size = fit.size; inside = fit.inside };
  shrinks = λ c reply fit.
      store_reply_keeps (λ d. left d ≤ left c) (take_status reply) c (omega arith)
        (λ sw r. omega arith);
}
