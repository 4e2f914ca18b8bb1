-- ===== src/Examples/Replies.antt =====
-- The functions of the trait, the decoders and the signatures on concrete replies.
use icebox.Constants.{ins_get_firmware_version}
use icebox.Error.{response_wrong_length}
use icebox.Prelude.{
  ◌<◌, ◌⊎◌, ◌≤◌, ℕ, ◌≡◌, refl, false, List, [], ◌∷◌, ◌++◌, length, replicate, All, arith,
}
use icebox.Outcome.{Foreign, done, failed, ok, err, Returns}
use icebox.Bytes.{be_path}
use icebox.Transport.Frame.{packet_len, header_len}
use icebox.Transport.Delivery.{frames, apdu_frames}
use icebox.Cutpoints.Whole.{concat_map}
use icebox.Command.Transcript.{transcript}
use icebox.Message.FirmwareVersion
use icebox.Message.FirmwareVersion.Decode.{decode_cases}
use icebox.Message.WalletPublicKey
use icebox.Message.WalletPublicKey.{KeyCodec, WalletPublicKey}
use icebox.Message.WalletPublicKey.Decode
use icebox.Message.WalletPublicKey.Decode.{reply_bytes, decode_lem}
use icebox.Message.SignMessagePrepare
use icebox.Message.SignMessagePrepare.{SignMessagePrepare}
use icebox.Message.SignMessagePrepare.Whole.{IsApdu, sign_message_sends}
use icebox.Signature.{Secp, convert_ledger_der_to_compact, der_of_compact}
use icebox.Signature.Compact.{ledger_der, padded, convert_short, convert-der_of_compact}
use icebox.Dongle.{get_public_key}
use icebox.Signature.{neg_one}
use icebox.Signature.Negated.{convert_negated}
use icebox.Dongle.Replies.{new_command, get_public_key_lem}
use icebox.Examples.Device.{desk, read_desk}

-- A key is taken if it has a byte, and is then its bytes; every text is taken.
abbrev take_key : List ℕ → Foreign (List ℕ)
take_key [] = failed 1
take_key (b ∷ bs) = done (b ∷ bs)

abbrev codec : KeyCodec (List ℕ)
codec = record { from_slice = take_key; from_utf8 = done }

abbrev key : List ℕ
key = 4 ∷ 5 ∷ 6 ∷ []

abbrev addr : List ℕ
addr = 49 ∷ 50 ∷ []

abbrev chaincode : List ℕ
chaincode = replicate 32 7

decode_example :
    WalletPublicKey.decode codec (reply_bytes key addr chaincode)
    ≡ ok (record { public_key = key; b58_address = addr; chaincode = chaincode })
decode_example = decode_lem codec key addr chaincode addr key refl refl refl

decode-Returns_example : Returns (WalletPublicKey.decode codec (3 ∷ 4 ∷ 5 ∷ []))
decode-Returns_example = Decode.decode-Returns codec 3 (4 ∷ 5 ∷ [])

abbrev request_frames : List (List ℕ)
request_frames = apdu_frames (WalletPublicKey.request (new_command desk codec (44 ∷ []) false))

abbrev reply_frames : List (List ℕ)
reply_frames = apdu_frames (reply_bytes key addr chaincode ++ 0x90 ∷ 0x00 ∷ [])

get_public_key_example : get_public_key desk 2 codec (44 ∷ []) false ([], reply_frames) ≡ (
  ok (record { public_key = key; b58_address = addr; chaincode = chaincode }),
  (request_frames, []),
)
unfolding frames packet_len header_len read_desk WalletPublicKey.request be_path
get_public_key_example =
    get_public_key_lem desk codec 0 (44 ∷ []) false key addr chaincode addr key ([], reply_frames)
      (request_frames, reply_frames) (request_frames, []) (omega arith) (omega arith) refl refl refl
      (refl, refl) (refl, refl)

sign_message_example :
    (c : SignMessagePrepare) × (SignMessagePrepare.new (44 ∷ 1 ∷ []) (replicate 300 65) ≡ ok c)
    × ((msgs : List (List ℕ)) × (transcript SignMessagePrepare.command 301 c ≡ ok msgs)
        × (concat_map SignMessagePrepare.Laws.payload msgs ≡ replicate 300 65)
        × All IsApdu msgs)
sign_message_example =
    sign_message_sends (44 ∷ 1 ∷ []) (replicate 300 65) 301 (omega arith) (omega arith)
      (omega arith)

-- Functions of secp256k1 that take everything.
abbrev lib : Secp (List ℕ)
lib = record {
  secret_key = done;
  mul_assign = λ a b. done a;
  from_der_lax = done;
  normalize_s = λ s. s;
}

convert_short_example :
    convert_ledger_der_to_compact lib
      (ledger_der 0x31 0x44 0x02 0x02 (replicate 31 9) (replicate 32 8) [])
    ≡ ok (padded (replicate 31 9) ++ padded (replicate 32 8))
convert_short_example =
    convert_short lib 0x31 0x44 0x02 0x02 (replicate 31 9) (replicate 32 8) [] (omega arith)
      (omega arith)

convert-der_of_compact_example :
    (der : List ℕ) × (der_of_compact lib (replicate 32 9 ++ replicate 32 8) ≡ ok der)
    × (length der ≡ 70)
    × (convert_ledger_der_to_compact lib der ≡ ok (replicate 32 9 ++ replicate 32 8))
convert-der_of_compact_example =
    convert-der_of_compact lib (replicate 32 9) (replicate 32 8) refl refl

-- A version of 8 bytes, as the Nano S sends it.
abbrev firmware : List ℕ
firmware = 0x01 ∷ 0x30 ∷ 1 ∷ 1 ∷ 6 ∷ 0x14 ∷ 1 ∷ 0 ∷ []

firmware_example :
    ((5 ≤ 8)
      × (8 ≤ 8)
      × (FirmwareVersion.decode firmware ≡ ok (FirmwareVersion.Decode.version_of firmware)))
    ⊎ (((8 < 5) ⊎ (8 < 8))
        × (FirmwareVersion.decode firmware
            ≡ err (response_wrong_length ins_get_firmware_version 8)))
firmware_example = decode_cases firmware

abbrev tail : List ℕ
tail = replicate 31 8

convert_negated_example :
    convert_ledger_der_to_compact lib (ledger_der 0x31 0x45 0x02 0x02 (0 ∷ replicate 32 9) tail [])
    ≡ ok (replicate 32 9 ++ padded tail)
convert_negated_example =
    convert_negated lib 0x31 0x45 0x02 0x02 0 (replicate 32 9) tail [] (padded tail) neg_one
      (padded tail) refl (omega arith) refl refl refl refl
