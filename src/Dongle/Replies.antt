-- ===== src/Dongle/Replies.antt =====
-- The functions of the trait on a device that takes the request and answers it.
use icebox.Dongle.{false, when_ok, get_random, get_public_key}
use icebox.Prelude.{
  ℕ, suc, ◌+◌, ◌<◌, ◌≡◌, refl, Bool, ◌==◌, List, [], ◌∷◌, ◌++◌, length, length-append, lt→ltb,
  if◌then◌else◌, arith,
}
use icebox.Error.{apdu_bad_status}
use icebox.Outcome.{done, ok, err}
use icebox.Bytes.{status_word}
use icebox.Constants.{sw_ok}
use icebox.Io.{Hid}
use icebox.Transport.Delivery.{Accepts, Delivers, apdu_frames}
use icebox.Message.SingleShot.{exchange_single}
use icebox.Message.Random
use icebox.Message.Random.{GetRandom}
use icebox.Message.WalletPublicKey
use icebox.Message.WalletPublicKey.{KeyCodec, GetWalletPublicKey, WalletPublicKey}
use icebox.Message.WalletPublicKey.Decode.{reply_bytes, decode_lem}

module _ {H : Type 0} (hid : Hid H) where
  -- On a device that takes the frames of the request for `n` bytes and hands out the frames of a
  -- reply of less than 65536 bytes: `get_random` returns the body of that reply if its status
  -- word is 0x9000, and otherwise the error with the status word. Two rounds are fuel enough.
  pub get_random_lem :
      (fuel n : ℕ) (body : List ℕ) (sw1 sw2 : ℕ) (h h1 h2 : H)
      → length body + 2 < 0x10000
      → Accepts hid (apdu_frames (Random.Laws.request (Random.new n))) h h1
      → Delivers hid (apdu_frames (body ++ sw1 ∷ sw2 ∷ [])) h1 h2
      → get_random hid (suc (suc fuel)) n h ≡ (
        (if status_word sw1 sw2 == sw_ok
            then ok body
            else err (apdu_bad_status (status_word sw1 sw2))),
        h2,
      )
  unfolding get_random when_ok Random.Laws.single Random.new
  get_random_lem fuel n body sw1 sw2 h h1 h2 small sent got = rw (
      exchange_single Random.Laws.single hid fuel (Random.new n) body sw1 sw2 h h1 h2 tt refl refl
        small sent got)

  module _ {PublicKey : Type 0} (codec : KeyCodec PublicKey) where
    abbrev pub new_command : List ℕ → Bool → GetWalletPublicKey
    new_command path display = record {
      sent = false;
      reply = [];
      sw = 0;
      bip32_path = path;
      display = display;
    }

    -- On a device that takes the frames of the request for a path of at most 10 steps, and hands
    -- out the frames of a reply with a key, an address (together less than 65280 bytes), a
    -- chaincode of 32 bytes and the status word 0x9000: `get_public_key` returns these, if
    -- secp256k1 takes the key and the address is UTF-8.
    pub get_public_key_lem :
        (fuel : ℕ) (path : List ℕ) (display : Bool) (key addr chaincode text : List ℕ)
        (pk : PublicKey) (h h1 h2 : H)
        → length path < 11
        → length key + length addr < 0xff00
        → length chaincode ≡ 32
        → codec.from_slice key ≡ done pk
        → codec.from_utf8 addr ≡ done text
        → Accepts hid (apdu_frames (WalletPublicKey.request (new_command path display))) h h1
        → Delivers hid (apdu_frames (reply_bytes key addr chaincode ++ 0x90 ∷ 0x00 ∷ [])) h1 h2
        → get_public_key hid (suc (suc fuel)) codec path display h
          ≡ (ok (record { public_key = pk; b58_address = text; chaincode = chaincode }), h2)
    unfolding get_public_key when_ok WalletPublicKey.Laws.single WalletPublicKey.new
    get_public_key_lem fuel path display key addr chaincode text pk h h1 h2 short small size is_key
          is_text sent got =
        let c : GetWalletPublicKey = new_command path display in
        let body : List ℕ = reply_bytes key addr chaincode in
        let body_size : length body + 2 < 0x10000 = omega (
          arith,
          length-append key (length addr ∷ (addr ++ chaincode)),
          length-append addr chaincode,
        ) in
        rw (
          lt→ltb (length path) 11 short,
          exchange_single WalletPublicKey.Laws.single hid fuel c body 0x90 0x00 h h1 h2 short refl
              refl body_size sent got,
          decode_lem codec key addr chaincode text pk is_key is_text size,
        )
