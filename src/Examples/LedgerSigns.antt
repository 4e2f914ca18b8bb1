-- ===== src/Examples/LedgerSigns.antt =====
-- `sign_message`, `get_random` and `set_network` of the hardware dongle on the device of Ledger.
use icebox.Prelude.{
  ℕ, ◌≡◌, refl, ap, ◌∙◌, true, false, some, none, List, [], ◌∷◌, ◌++◌, length, length-slice,
  replicate, slice, arith,
}
use icebox.Outcome.{ok, index_range_ok, checked_sub, index_range, index}
use icebox.Bytes.{be_path}
use icebox.Constants.{max_apdu_size}
use icebox.Signature.{convert_ledger_der_to_compact, compact_short, copy_into}
use icebox.Transport.Delivery.{frames, apdu_frames, Accepts}
use icebox.Transport.Frame.{data_frame, frame_header, packet_len, header_len}
use icebox.Io.{Hid, continue_elim}
use icebox.Bitcoin.{Consensus, Transaction}
use icebox.Message.TrustedInput
use icebox.Command.{exchange}
use icebox.Command.Exchange.{exchange_step, exchange_end}
use icebox.Message.SingleShot.{exchange_single}
use icebox.Message.SignMessagePrepare
use icebox.Message.SignMessagePrepare.{SignMessagePrepare}
use icebox.Message.SignMessageSign
use icebox.Message.CoinVersions
use icebox.Message.CoinVersions.{Network}
use icebox.Message.Random
use icebox.Message.Status.{take_status_lem}
use icebox.Dongle.Replies.{get_random_lem}
use icebox.Dongle
use icebox.Examples.Ledger.{Queue, ledger, answer, numbers, der, takes_sign, hands_out}

converted : convert_ledger_der_to_compact numbers der ≡ ok (replicate 64 3)
unfolding convert_ledger_der_to_compact compact_short copy_into index_range checked_sub index
converted = refl

module _ (a b c d e : ℕ) (message : List ℕ) (size : length message ≡ 272) where
  abbrev path : List ℕ
  path = a ∷ b ∷ c ∷ d ∷ e ∷ []

  abbrev before : SignMessagePrepare
  before = record { sent_length = 0; reply = []; sw = 0; bip32_path = path; message = message }

  -- The command behind the reply to its first APDU, with 232 bytes sent.
  abbrev between : SignMessagePrepare
  between = record before { sent_length = 232; reply = 0 ∷ 0 ∷ []; sw = 0x9000 }

  abbrev behind : SignMessagePrepare
  behind = record between { sent_length = 272 }

  abbrev first_rest : List ℕ
  first_rest = SignMessagePrepare.front before ++ slice 0 232 message

  encodes_first :
      SignMessagePrepare.encode_next max_apdu_size before
      ≡ ok
          (some (0xe0 ∷ 0x4e ∷ 0x00 ∷ 0x01 ∷ 255 ∷ first_rest), record before { sent_length = 232 })
  unfolding SignMessagePrepare.encode_next SignMessagePrepare.encode_first checked_sub be_path
  encodes_first = rw (size, index_range_ok 0 232 message (omega arith) (omega arith))

  encodes_second :
      SignMessagePrepare.encode_next max_apdu_size between
      ≡ ok (some (0xe0 ∷ 0x4e ∷ 0x00 ∷ 0x80 ∷ 40 ∷ slice 232 272 message), behind)
  unfolding SignMessagePrepare.encode_next SignMessagePrepare.encode_more checked_sub
  encodes_second = rw (size, index_range_ok 232 272 message (omega arith) (omega arith))

  encodes_end : SignMessagePrepare.encode_next max_apdu_size behind ≡ ok (none, behind)
  unfolding SignMessagePrepare.encode_next
  encodes_end = rw size

  decodes :
      (c : SignMessagePrepare)
      → SignMessagePrepare.decode_reply (0 ∷ 0 ∷ 0x90 ∷ 0x00 ∷ []) c
        ≡ (ok tt, record c { reply = 0 ∷ 0 ∷ []; sw = 0x9000 })
  unfolding SignMessagePrepare.decode_reply SignMessagePrepare.store_reply
  decodes c = rw (take_status_lem (0 ∷ 0 ∷ []) 0x90 0x00)

  abbrev agreed : List (List ℕ)
  agreed = apdu_frames (0 ∷ 0 ∷ 0x90 ∷ 0x00 ∷ [])

  prepared :
      (q : Queue)
      → exchange ledger SignMessagePrepare.command 10 before q ≡ (ok (0x9000, 0 ∷ 0 ∷ []), [])
  unfolding SignMessagePrepare.into_reply be_path
  prepared q =
      let part : length (slice 0 232 message) ≡ 232 =
        length-slice 0 232 message (omega arith) (omega arith) in
      let last : length (slice 232 272 message) ≡ 40 =
        length-slice 232 272 message (omega arith) (omega arith) in
      exchange_step ledger SignMessagePrepare.command 9 before (record before { sent_length = 232 })
        between (0xe0 ∷ 0x4e ∷ 0x00 ∷ 0x01 ∷ 255 ∷ first_rest) (0 ∷ 0 ∷ 0x90 ∷ 0x00 ∷ []) q agreed
        [] encodes_first (omega arith) (omega (arith, part)) (omega arith) (omega arith)
        (takes_sign 0x00 0x01 255 first_rest q (omega (arith, part))) (hands_out agreed) (decodes _)
      ∙ exchange_step ledger SignMessagePrepare.command 8 between behind behind
          (0xe0 ∷ 0x4e ∷ 0x00 ∷ 0x80 ∷ 40 ∷ slice 232 272 message) (0 ∷ 0 ∷ 0x90 ∷ 0x00 ∷ []) []
          agreed [] encodes_second (omega arith) (omega (arith, last)) (omega arith) (omega arith)
          (takes_sign 0x00 0x80 40 (slice 232 272 message) [] (omega (arith, last)))
          (hands_out agreed) (decodes behind)
      ∙ exchange_end ledger SignMessagePrepare.command 7 behind behind [] encodes_end

  is_new : SignMessagePrepare.new path message ≡ ok before
  unfolding SignMessagePrepare.new
  is_new = rw size

  signed :
      exchange ledger SignMessageSign.command 10 SignMessageSign.new [] ≡ (ok (0x9000, der), [])
  unfolding SignMessageSign.new SignMessageSign.Laws.single
  signed =
      exchange_single SignMessageSign.Laws.single ledger 8 SignMessageSign.new der 0x90 0x00 []
        (apdu_frames (der ++ 0x90 ∷ 0x00 ∷ [])) [] tt refl refl (omega arith)
        (takes_sign 0x80 0x00 0x01 (0x00 ∷ []) [] (omega arith))
        (hands_out (apdu_frames (der ++ 0x90 ∷ 0x00 ∷ [])))

  pub sign :
      (q : Queue) → (Dongle.sign_message ledger 10 numbers message path q).0 ≡ ok (replicate 64 3)
  unfolding Dongle.sign_message Dongle.user_agreed Dongle.when_ok
  sign q = rw (is_new, prepared q, signed, converted)

takes_random :
    (q : Queue)
    → Accepts ledger
        (apdu_frames (Random.Laws.request (Random.new 16)))
        q
        (apdu_frames (replicate 16 5 ++ 0x90 ∷ 0x00 ∷ []))
unfolding Random.new answer frames data_frame frame_header packet_len header_len
takes_random q = (refl, refl)

pub random : (q : Queue) → (Dongle.get_random ledger 10 16 q).0 ≡ ok (replicate 16 5)
random q =
    let reply : List ℕ = replicate 16 5 ++ 0x90 ∷ 0x00 ∷ [] in
    ap (λ t. t.0)
      (get_random_lem ledger 8 16 (replicate 16 5) 0x90 0x00 q (apdu_frames reply) [] (omega arith)
        (takes_random q) (hands_out (apdu_frames reply)))

takes_network :
    (network : Network) (q : Queue)
    → Accepts ledger
        (apdu_frames (CoinVersions.Laws.single.request (CoinVersions.new network)))
        q
        (apdu_frames (0x90 ∷ 0x00 ∷ []))
unfolding CoinVersions.Laws.single CoinVersions.new answer frames data_frame frame_header packet_len
    header_len
takes_network Network.bitcoin q = (refl, refl)
takes_network Network.testnet q = (refl, refl)
takes_network Network.regtest q = (refl, refl)

is_unsent : (network : Network) → (CoinVersions.new network).sent ≡ false
unfolding CoinVersions.new
is_unsent Network.bitcoin = refl
is_unsent Network.testnet = refl
is_unsent Network.regtest = refl

single_sent : (network : Network) → CoinVersions.Laws.single.sent (CoinVersions.new network) ≡ false
unfolding CoinVersions.Laws.single
single_sent network = is_unsent network

single_fits : CoinVersions.Laws.single.fits [] ≡ true
unfolding CoinVersions.Laws.single
single_fits = refl

pub network_set :
    (network : Network) (q : Queue) → (Dongle.set_network ledger 10 network q).0 ≡ ok tt
unfolding Dongle.set_network Dongle.when_ok
network_set network q = rw (
    exchange_single CoinVersions.Laws.single ledger 8 (CoinVersions.new network) [] 0x90 0x00 q
      (apdu_frames (0x90 ∷ 0x00 ∷ [])) [] tt (single_sent network) single_fits (omega arith)
      (takes_network network q) (hands_out (apdu_frames (0x90 ∷ 0x00 ∷ []))))

pair_with : {A B : Type 0} {x : A × B} {a : A} → x.0 ≡ a → x ≡ (a, x.1)
pair_with {x = x} e = ap (λ t. (t, x.1)) e

-- A trusted input that is returned has 56 bytes, on every device.
pub length-get_trusted_input :
    {H Script : Type 0} (hid : Hid H) (fuel : ℕ) (consensus : Consensus Script)
    (tx : Transaction Script) (vout : ℕ) (h : H) (bytes : List ℕ)
    → (Dongle.get_trusted_input hid fuel consensus tx vout h).0 ≡ ok bytes
    → length bytes ≡ 56
unfolding Dongle.get_trusted_input Dongle.when_ok
length-get_trusted_input hid fuel consensus tx vout h bytes e =
    continue_elim (TrustedInput.new consensus tx vout max_apdu_size) _ h (pair_with e)
      λ cmd made e1.
        continue_elim (exchange hid TrustedInput.command fuel cmd h).0 _ _ e1
          λ x got e2. ground (arith, ap (λ t. t.0) e2)
