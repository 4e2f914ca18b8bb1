-- ===== src/Message/FirmwareVersion/Decode.antt =====
-- `FirmwareVersion::decode` on replies of every length.
use icebox.Prelude.{
  ℕ, ◌≤◌, ◌<◌, ◌≡◌, ◌⊎◌, inl, inr, ◌||◌, Bool-cases, ltb, leb, Option, some, none, List, length,
  get_or, arith, if◌then◌else◌,
}
use icebox.Outcome.{ok, err, index_ok}
use icebox.Error.{response_wrong_length}
use icebox.Constants.{ins_get_firmware_version}
use icebox.Message.FirmwareVersion.{FirmwareVersion, loader_byte, has_flag, decode}

loader_byte_lem :
    (i : ℕ) (bytes : List ℕ)
    → i < 7
    → loader_byte i bytes ≡ ok (if leb 7 (length bytes) then some (get_or bytes i 0) else none)
unfolding loader_byte
loader_byte_lem i bytes h = elim (Bool-cases (leb 7 (length bytes))) [
  | inl e ↦ let long : i < length bytes = ground arith in rw (e, index_ok bytes i 0 long)
  | inr e ↦ rw e
]

-- A byte of the reply, if it goes on to the loader's version.
abbrev loader_at : ℕ → List ℕ → Option ℕ
loader_at i bytes = if leb 7 (length bytes) then some (get_or bytes i 0) else none

-- The version that the bytes at their places stand for.
abbrev pub version_of : List ℕ → FirmwareVersion
version_of bytes = record {
  compressed = has_flag (get_or bytes 0 0) 0x01;
  has_screen_and_buttons = has_flag (get_or bytes 0 0) 0x02;
  external_screen_and_buttons = has_flag (get_or bytes 0 0) 0x04;
  nfc_payment_ext = has_flag (get_or bytes 0 0) 0x08;
  ble_low_power_ext = has_flag (get_or bytes 0 0) 0x10;
  tee = has_flag (get_or bytes 0 0) 0x20;
  architecture = get_or bytes 1 0;
  major_version = get_or bytes 2 0;
  minor_version = get_or bytes 3 0;
  patch_version = get_or bytes 4 0;
  loader_major_version = loader_at 5 bytes;
  loader_minor_version = loader_at 6 bytes;
}

-- A reply of 5 to 8 bytes is decoded, with the loader's version only from 7 bytes on; any other
-- length is the error that names it. There is no panic.
pub decode_cases :
    (bytes : List ℕ)
    → ((5 ≤ length bytes) × (length bytes ≤ 8) × (decode bytes ≡ ok (version_of bytes)))
      ⊎ (((length bytes < 5) ⊎ (8 < length bytes))
          × (decode bytes ≡ err (response_wrong_length ins_get_firmware_version (length bytes))))
unfolding decode
decode_cases bytes = elim (Bool-cases (ltb (length bytes) 5 || ltb 8 (length bytes))) [
  | inl wrong ↦ inr (ground arith, rw wrong)
  | inr right ↦
      let lo : 5 ≤ length bytes = ground arith in
      let hi : length bytes ≤ 8 = ground arith in
      inl (
        lo,
        hi,
        rw (
          right,
          loader_byte_lem 5 bytes (omega arith),
          loader_byte_lem 6 bytes (omega arith),
          index_ok bytes 0 0 (omega arith),
          index_ok bytes 1 0 (omega arith),
          index_ok bytes 2 0 (omega arith),
          index_ok bytes 3 0 (omega arith),
          index_ok bytes 4 0 (omega arith),
        ),
      )
]
