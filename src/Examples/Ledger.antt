-- ===== src/Examples/Ledger.antt =====
-- A device behind the HID library that answers the requests for a key, for random bytes, for a network
-- and for a signature, and the hardware dongle on it.
use icebox.Prelude.{
  ℕ, zero, suc, drop, ◌<◌, ◌+◌, ◌*◌, ◌/◌, ◌%◌, ◌≡◌, refl, ap, Bool, false, Option, none, some, List,
  [], ◌∷◌, ◌++◌, length, replicate, slice, get_or, ◌==◌, if◌then◌else◌, arith,
}
use icebox.Outcome.{Foreign, done, ok}
use icebox.Bytes.{read_u16, be_path}
use icebox.Io.{Hid}
use icebox.Signature.{Secp}
use icebox.Transport.Frame.{packet_len, header_len, data_frame, frame_header}
use icebox.Transport.Delivery.{frames, apdu_frames, Accepts, Delivers}
use icebox.Message.WalletPublicKey.{KeyCodec, WalletPublicKey, request}
use icebox.Message.WalletPublicKey.Decode.{reply_bytes}
use icebox.Dongle.Replies.{get_public_key_lem, new_command}
use icebox.Dongle
use icebox.Transport.Frame.Laws.{data_frame_lem}

-- A signature of two numbers of 32 bytes.
abbrev pub der : List ℕ
der = 0x30 ∷ 0x44 ∷ 0x02 ∷ 0x20 ∷ (replicate 32 3 ++ (0x02 ∷ 0x20 ∷ replicate 32 3))

abbrev pub signing_reply : ℕ → List ℕ
signing_reply p1 = if p1 == 0 then 0 ∷ 0 ∷ [] else der

-- The address of a path is the path behind the byte of the digit 1.
abbrev pub text : List ℕ → List ℕ
text path = 0x31 ∷ be_path path

abbrev key_reply : List ℕ → List ℕ
key_reply path_bytes = reply_bytes (2 ∷ []) (0x31 ∷ path_bytes) (replicate 32 7)

-- The reply to the request that begins in this report.
abbrev body : List ℕ → List ℕ
body f =
    let instruction = get_or f 8 0 in
    if instruction == 0x40
    then key_reply (slice 13 33 f)
    else if instruction == 0xc0
    then replicate 16 5
    else if instruction == 0x4e
    then signing_reply (get_or f 9 0)
    else []

-- The reports that the device will hand out.
abbrev pub Queue : Type 0
Queue = List (List ℕ)

unfoldable pub answer : List ℕ → Queue → Queue
answer f q = if read_u16 3 f == 0 then apdu_frames (body f ++ 0x90 ∷ 0x00 ∷ []) else q

unfoldable pub hand_out : Queue → Foreign (Option (List ℕ)) × Queue
hand_out [] = (done none, [])
hand_out (f ∷ fs) = (done (some f), fs)

abbrev pub ledger : Hid Queue
ledger = record { write = λ f q. (done tt, answer f q); read = hand_out }

abbrev pub codec : KeyCodec ℕ
codec = record { from_slice = λ bytes. done (get_or bytes 0 0); from_utf8 = done }

pub hands_out : (fs : List (List ℕ)) → Delivers ledger fs fs []
unfolding hand_out
hands_out [] = refl
hands_out (f ∷ fs) = (refl, hands_out fs)

abbrev pub key : List ℕ → WalletPublicKey ℕ
key path = record { public_key = 2; b58_address = text path; chaincode = replicate 32 7 }

takes_key :
    (a b c d e : ℕ) (display : Bool) (h : Queue)
    → Accepts ledger
        (apdu_frames (request (new_command ledger codec (a ∷ b ∷ c ∷ d ∷ e ∷ []) display)))
        h
        (apdu_frames (key_reply (be_path (a ∷ b ∷ c ∷ d ∷ e ∷ [])) ++ 0x90 ∷ 0x00 ∷ []))
unfolding request answer frames data_frame frame_header packet_len header_len be_path
takes_key a b c d e display h = (refl, refl)

abbrev pub numbers : Secp (List ℕ)
numbers = record {
  secret_key = done;
  mul_assign = λ a b. done a;
  from_der_lax = done;
  normalize_s = λ s. s;
}

pub get_key :
    (a b c d e : ℕ) (display : Bool) (h : Queue)
    → (Dongle.get_public_key ledger 10 codec (a ∷ b ∷ c ∷ d ∷ e ∷ []) display h).0
      ≡ ok (key (a ∷ b ∷ c ∷ d ∷ e ∷ []))
unfolding be_path
get_key a b c d e display h =
    let path : List ℕ = a ∷ b ∷ c ∷ d ∷ e ∷ [] in
    let reply : List ℕ = key_reply (be_path path) ++ 0x90 ∷ 0x00 ∷ [] in
    ap (λ t. t.0)
      (get_public_key_lem ledger codec 8 path display (2 ∷ []) (text path) (replicate 32 7)
        (text path) 2 h (apdu_frames reply) [] (omega arith) (omega arith) refl refl refl
        (takes_key a b c d e display h) (hands_out (apdu_frames reply)))

answered :
    (p1 p2 len : ℕ) (rest : List ℕ) (q : Queue)
    → answer (data_frame 0 (0xe0 ∷ 0x4e ∷ p1 ∷ p2 ∷ len ∷ rest)) q
      ≡ apdu_frames (signing_reply p1 ++ 0x90 ∷ 0x00 ∷ [])
unfolding answer frame_header packet_len header_len
answered p1 p2 len rest q = rw (data_frame_lem 0 (0xe0 ∷ 0x4e ∷ p1 ∷ p2 ∷ len ∷ rest)) refl

skipped : (n : ℕ) (m : List ℕ) (q : Queue) → 0 < n → n < 0x10000 → answer (data_frame n m) q ≡ q
unfolding answer frame_header
skipped n m q pos small =
    let other : (n / 256 % 256 * 256 + n % 256 == 0) ≡ false = ground arith in
    rw (data_frame_lem n m, other)

-- The frames behind the first are part of the same request.
skips :
    (k n : ℕ) (m : List ℕ) (q : Queue) → 0 < n → n + k < 0x10000 → Accepts ledger (frames k n m) q q
unfolding frames
skips k n [] q pos small = refl
skips zero n (b ∷ bs) q pos small = refl
skips (suc k) n (b ∷ bs) q pos small = (
  refl,
  rw (skipped n (b ∷ bs) q pos (omega arith))
      (skips k (n + 1) (drop (packet_len n) (b ∷ bs)) q (omega arith) (omega arith)),
)

takes :
    (k b : ℕ) (bs : List ℕ) (q q1 : Queue)
    → k + 1 < 0x10000
    → answer (data_frame 0 (b ∷ bs)) q ≡ q1
    → Accepts ledger (frames (suc k) 0 (b ∷ bs)) q q1
unfolding frames
takes k b bs q q1 small is =
    (refl, rw is (skips k (0 + 1) (drop (packet_len 0) (b ∷ bs)) q1 (omega arith) (omega arith)))

pub takes_sign :
    (p1 p2 len : ℕ) (rest : List ℕ) (q : Queue)
    → length rest < 1000
    → Accepts ledger
        (apdu_frames (0xe0 ∷ 0x4e ∷ p1 ∷ p2 ∷ len ∷ rest))
        q
        (apdu_frames (signing_reply p1 ++ 0x90 ∷ 0x00 ∷ []))
takes_sign p1 p2 len rest q small =
    takes (suc (suc (suc (suc (length rest))))) 0xe0 (0x4e ∷ p1 ∷ p2 ∷ len ∷ rest) q _ (omega arith)
      (answered p1 p2 len rest q)
