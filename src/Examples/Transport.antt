-- ===== src/Examples/Transport.antt =====
-- The transport and `exchange` on concrete devices.
use icebox.Prelude.{take, length, ℕ, ◌-◌, ◌+◌, ◌/◌, ◌≡◌, refl, List, [], ◌∷◌, arith}
use icebox.Outcome.{ok, Returns}
use icebox.Transport.Frame.{packet_len, header_len}
use icebox.Transport.Apdu.{write_apdu, read_apdu}
use icebox.Transport.Delivery.{
  frames, apdu_frames, Delivers, write_apdu_lem, read_apdu_lem, read_apdu-Returns,
}
use icebox.Transport.Sound.{Numbered, declared, payloads, read_apdu_sound}
use icebox.Examples.Device.{desk, read_desk, hello, long_reply, zeros, zeros-ReadsBytes}
use icebox.Command.{exchange}
use icebox.Command.Exchange.{exchange-Returns}
use icebox.Message.SingleShot.{unsent, SingleShot-Progresses, exchange_single}
use icebox.Message.Random
use icebox.Message.Random.{GetRandom}

write_apdu_example : write_apdu desk hello ([], []) ≡ (ok tt, (apdu_frames hello, []))
unfolding frames packet_len header_len
write_apdu_example =
    write_apdu_lem desk hello ([], []) (apdu_frames hello, []) (omega arith) (omega arith)
      (refl, refl)

read_apdu_example : read_apdu desk ([], apdu_frames long_reply) ≡ (ok long_reply, ([], []))
unfolding frames packet_len header_len read_desk
read_apdu_example =
    read_apdu_lem desk long_reply ([], apdu_frames long_reply) ([], []) (omega arith) (omega arith)
      (refl, (refl, refl))

read_apdu-Returns_example : Returns (read_apdu zeros tt).0
read_apdu-Returns_example = read_apdu-Returns zeros zeros-ReadsBytes tt

read_apdu_sound_example :
    (first : List ℕ) × (rest : List (List ℕ)) × Delivers desk
      (first ∷ rest)
      ([], apdu_frames long_reply)
      ([], [])
    × Numbered 0 (first ∷ rest)
    × (long_reply ≡ take (declared first) (payloads 0 (first ∷ rest)))
    × (length long_reply ≡ declared first)
    × (length rest ≡ (declared first - 57 + 58) / 59)
read_apdu_sound_example =
    read_apdu_sound desk long_reply ([], apdu_frames long_reply) ([], []) read_apdu_example

abbrev random : GetRandom
random = Random.new 3

exchange-Returns_example : Returns (exchange zeros Random.command 2 random tt).0
exchange-Returns_example =
    exchange-Returns zeros Random.command Random.Laws.IsFit (unsent Random.Laws.single)
      zeros-ReadsBytes (SingleShot-Progresses Random.Laws.single) 2 random tt tt
      (unfold Random.new Random.Laws.single in omega arith)

abbrev random_request : List ℕ
random_request = 0xe0 ∷ 0xc0 ∷ 0 ∷ 0 ∷ 3 ∷ []

exchange_single_example :
    exchange desk Random.command 2 random ([], apdu_frames (7 ∷ 8 ∷ 9 ∷ 0x90 ∷ 0x00 ∷ []))
    ≡ (ok (0x9000, 7 ∷ 8 ∷ 9 ∷ []), (apdu_frames random_request, []))
unfolding frames packet_len header_len read_desk Random.new Random.Laws.single
exchange_single_example =
    exchange_single Random.Laws.single desk 0 random (7 ∷ 8 ∷ 9 ∷ []) 0x90 0x00
      ([], apdu_frames (7 ∷ 8 ∷ 9 ∷ 0x90 ∷ 0x00 ∷ []))
      (apdu_frames random_request, apdu_frames (7 ∷ 8 ∷ 9 ∷ 0x90 ∷ 0x00 ∷ []))
      (apdu_frames random_request, []) tt refl refl (omega arith) (refl, refl) (refl, refl)
