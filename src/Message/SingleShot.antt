-- ===== src/Message/SingleShot.antt =====
-- The commands of one APDU: what they have in common, and `exchange` of such a command.
use icebox.Prelude.{
  ℕ, suc, ◌+◌, ◌≤◌, ◌<◌, ◌≡◌, Bool, true, false, Bool-cases, inl, inr, some, none, List, [], ◌∷◌,
  ◌++◌, arith, length, length-append, if◌then◌else◌,
}
use icebox.Outcome.{ok, Returns}
use icebox.Constants.{max_apdu_size}
use icebox.Bytes.{status_word}
use icebox.Io.{Hid}
use icebox.Transport.Delivery.{Accepts, Delivers, apdu_frames}
use icebox.Command.{Command, exchange}
use icebox.Command.Exchange.{Encoded, Progresses, exchange_step, exchange_end}

-- `request` is the APDU that goes out once; `fits` says which reply bodies `decode_reply` takes.
pub record SingleShot {C : Type 0} (cmd : Command C) (Inv : C → Type 0) : Type 0 where
  pub sent : C → Bool
  pub request : C → List ℕ
  pub mark : C → C
  pub store : ℕ → List ℕ → C → C
  pub fits : List ℕ → Bool
  pub encodes_first :
      (n : ℕ) (c : C) → sent c ≡ false → cmd.encode_next n c ≡ ok (some (request c), mark c)
  pub encodes_end : (n : ℕ) (c : C) → sent c ≡ true → cmd.encode_next n c ≡ ok (none, c)
  pub sent-mark : (c : C) → sent (mark c) ≡ true
  pub sent-store : (c : C) (sw : ℕ) (body : List ℕ) → sent (store sw body c) ≡ sent c
  pub decodes :
      (c : C) (body : List ℕ) (sw1 sw2 : ℕ)
      → fits body ≡ true
      → cmd.decode_reply (body ++ sw1 ∷ sw2 ∷ []) c ≡ (ok tt, store (status_word sw1 sw2) body c)
  pub replies :
      (c : C) (sw : ℕ) (body : List ℕ)
      → fits body ≡ true
      → cmd.into_reply (store sw body c) ≡ (sw, body)
  pub request_size : (c : C) → Inv c → (0 < length (request c)) × (length (request c) ≤ 260)
  pub mark_keeps : (c : C) → Inv c → Inv (mark c)
  pub decode_returns : (c : C) (reply : List ℕ) → Returns (cmd.decode_reply reply c).0
  pub decode_keeps : (c : C) (reply : List ℕ) → Inv c → Inv (cmd.decode_reply reply c).1
  pub sent-decode : (c : C) (reply : List ℕ) → sent (cmd.decode_reply reply c).1 ≡ sent c

module _ {C : Type 0} {cmd : Command C} {Inv : C → Type 0} (s : SingleShot cmd Inv) where
  abbrev pub unsent : C → ℕ
  unsent c = if s.sent c then 0 else 1

  encodes : (c : C) → Inv c → Encoded cmd Inv unsent c (cmd.encode_next max_apdu_size c)
  encodes c inv = elim (Bool-cases (s.sent c)) [
    | inl old ↦ rw (s.encodes_end max_apdu_size c old) tt
    | inr new ↦ rw (s.encodes_first max_apdu_size c new) (
      (s.request_size c inv).0,
      (s.request_size c inv).1,
      s.mark_keeps c inv,
      rw (s.sent-mark c, new) (omega arith),
    )
  ]

  pub SingleShot-Progresses : Progresses cmd Inv unsent
  SingleShot-Progresses = record {
    encodes = encodes;
    decodes = λ c reply inv. s.decode_returns c reply;
    keeps = λ c reply inv. s.decode_keeps c reply inv;
    shrinks = λ c reply inv. rw (s.sent-decode c reply) (omega arith);
  }

  module _ {H : Type 0} (hid : Hid H) where
    -- For a command of one APDU (SingleShot) that fits its limits and has not been sent, on a
    -- device that takes the frames of its request and hands out those of a reply of less than
    -- 65536 bytes whose body the command takes: `exchange` with two rounds of fuel or more
    -- returns the status word and the body of that reply.
    pub exchange_single :
        (fuel : ℕ) (c : C) (body : List ℕ) (sw1 sw2 : ℕ) (h h1 h2 : H)
        → Inv c
        → s.sent c ≡ false
        → s.fits body ≡ true
        → length body + 2 < 0x10000
        → Accepts hid (apdu_frames (s.request c)) h h1
        → Delivers hid (apdu_frames (body ++ sw1 ∷ sw2 ∷ [])) h1 h2
        → exchange hid cmd (suc (suc fuel)) c h ≡ (ok (status_word sw1 sw2, body), h2)
    exchange_single fuel c body sw1 sw2 h h1 h2 inv new fit small sent got =
        let c' = s.store (status_word sw1 sw2) body (s.mark c) in
        let size : length (body ++ sw1 ∷ sw2 ∷ []) ≡ length body + 2 =
          omega (arith, length-append body (sw1 ∷ sw2 ∷ [])) in
        let sent' : s.sent c' ≡ true = rw (s.sent-store, s.sent-mark c) in
        rw (
          exchange_step hid cmd (suc fuel) c (s.mark c) c' (s.request c) (body ++ sw1 ∷ sw2 ∷ []) h
              h1 h2 (s.encodes_first max_apdu_size c new) (s.request_size c inv).0
              (omega (arith, (s.request_size c inv).1)) (omega arith) (omega arith) sent got
              (s.decodes (s.mark c) body sw1 sw2 fit),
          exchange_end hid cmd fuel c' c' h2 (s.encodes_end max_apdu_size c' sent'),
          s.replies (s.mark c) (status_word sw1 sw2) body fit,
        )
