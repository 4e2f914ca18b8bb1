-- ===== src/Transport/Frame.antt =====
-- src/dongle/ledger.rs: one HID frame of 64 bytes, as it is written and as it is read.
pub mod Laws
use icebox.Prelude.{
  ℕ, ◌+◌, ◌-◌, not, Option, none, some, List, [], ◌∷◌, ◌++◌, ltb, ◌==◌, min, length, take, drop,
  slice, replicate, get_or, if◌then◌else◌,
}
use icebox.Error.{unexpected_eof, apdu_wrong_channel, apdu_wrong_tag, apdu_wrong_sequence}
use icebox.Outcome.{Outcome, ok, err, panic, fail_if, ◌>>◌}
use icebox.Constants.{default_channel, tag_apdu, packet_size}
use icebox.Bytes.{be_u16, read_u16}

-- The first header holds a two-byte length more than the others.
unfoldable pub header_len : ℕ → ℕ
header_len sequence_no = if sequence_no == 0 then 7 else 5

unfoldable pub packet_len : ℕ → ℕ
packet_len sequence_no = packet_size - header_len sequence_no

unfoldable pub frame_header : ℕ → ℕ → List ℕ
frame_header sequence_no len =
    be_u16 default_channel
    ++ (tag_apdu ∷ (be_u16 sequence_no ++ (if sequence_no == 0 then be_u16 len else [])))

-- The frame for the front of the message; what that does not fill stays zero.
unfoldable pub data_frame : ℕ → List ℕ → List ℕ
data_frame sequence_no message =
    let room = packet_len sequence_no in
    let chunk = if ltb room (length message) then take room message else message in
    frame_header sequence_no (length message) ++ (chunk ++ replicate (room - length chunk) 0)

-- `data = &data[...]` after the copy.
unfoldable pub remaining : ℕ → List ℕ → List ℕ
remaining sequence_no message =
    if ltb (packet_len sequence_no) (length message)
    then drop (packet_len sequence_no) message
    else drop (length message) message

-- `sequence_no += 1` on a u16.
unfoldable pub next_sequence_no : ℕ → Outcome ℕ
next_sequence_no n = if ltb (n + 1) 0x10000 then ok (n + 1) else panic

-- One round of the loop of `read_apdu`, after the read: the checks of the frame, and the new
-- `receive_len` and `ret`.
unfoldable pub read_frame : ℕ → ℕ → List ℕ → List ℕ → Outcome (ℕ × List ℕ)
read_frame sequence_no receive_len ret frame = do
  fail_if (not (read_u16 0 frame == default_channel)) apdu_wrong_channel
  fail_if (not (get_or frame 2 0 == tag_apdu)) apdu_wrong_tag
  fail_if (not (read_u16 3 frame == sequence_no)) apdu_wrong_sequence
  let len = if sequence_no == 0 then read_u16 5 frame else receive_len
  let message_len = min len (packet_len sequence_no)
  let start = header_len sequence_no
  let old = if sequence_no == 0 then [] else ret
  ok (len - message_len, old ++ slice start (start + message_len) frame)

-- What `read` leaves in the zeroed 64-byte buffer.
unfoldable pub fill_frame : List ℕ → List ℕ
fill_frame bytes = take packet_size (bytes ++ replicate packet_size 0)

-- `if read_n.is_none() { return Err(UnexpectedEof) }`
unfoldable pub received : Option (List ℕ) → Outcome (List ℕ)
received none = err unexpected_eof
received (some bytes) = ok (fill_frame bytes)
