-- ===== src/Message/FirmwareVersion.antt =====
-- src/dongle/message.rs: `GetFirmwareVersion` and `FirmwareVersion`.
pub mod Laws
pub mod Decode
use icebox.Prelude.{
  ℕ, ◌+◌, ◌≤◌, ◌<◌, ◌≡◌, refl, Bool, true, false, not, ◌||◌, Option, none, some, List, [], ◌∷◌,
  ◌++◌, arith, length, ltb, leb, ◌==◌, bit_and, if◌then◌else◌,
}
use icebox.Error.{response_wrong_length}
use icebox.Outcome.{Outcome, ok, err, fail_if, index, ◌>>=◌, ◌>>◌}
use icebox.Constants.{btchip_cla, ins_get_firmware_version}
use icebox.Command.{Command}
use icebox.Message.Status.{
  take_status, and_store, take_status_lem, take_status-Returns, and_store-Returns, and_store_keeps,
}
use icebox.Message.SingleShot.{SingleShot}

pub record GetFirmwareVersion : Type 0 where
  pub sent : Bool
  pub reply : List ℕ
  pub sw : ℕ

unfoldable pub new : GetFirmwareVersion
new = record { sent = false; reply = []; sw = 0 }

unfoldable pub encode_next : ℕ → GetFirmwareVersion → Outcome (Option (List ℕ) × GetFirmwareVersion)
encode_next apdu_size c =
    if c.sent
    then ok (none, c)
    else ok
        (some (btchip_cla ∷ ins_get_firmware_version ∷ 0 ∷ 0 ∷ 0 ∷ []), record c { sent = true })

unfoldable pub decode_reply : List ℕ → GetFirmwareVersion → Outcome (Unit {0}) × GetFirmwareVersion
decode_reply bytes c =
    and_store (take_status bytes) (λ sw reply. record c { reply = reply; sw = sw }) c

unfoldable pub into_reply : GetFirmwareVersion → ℕ × List ℕ
into_reply c = (c.sw, c.reply)

abbrev pub command : Command GetFirmwareVersion
command = record { encode_next = encode_next; decode_reply = decode_reply; into_reply = into_reply }

pub record FirmwareVersion : Type 0 where
  pub compressed : Bool
  pub has_screen_and_buttons : Bool
  pub external_screen_and_buttons : Bool
  pub nfc_payment_ext : Bool
  pub ble_low_power_ext : Bool
  pub tee : Bool
  pub architecture : ℕ
  pub major_version : ℕ
  pub minor_version : ℕ
  pub patch_version : ℕ
  pub loader_major_version : Option ℕ
  pub loader_minor_version : Option ℕ

-- `if data.len() >= 7 { Some(data[i]) } else { None }`
unfoldable pub loader_byte : ℕ → List ℕ → Outcome (Option ℕ)
loader_byte i bytes = if leb 7 (length bytes) then (do b ← index bytes i; ok (some b)) else ok none

-- `byte & mask != 0`
abbrev pub has_flag : ℕ → ℕ → Bool
has_flag byte mask = not (bit_and byte mask == 0)

unfoldable pub decode : List ℕ → Outcome FirmwareVersion
unfolding loader_byte
decode bytes = do
  fail_if (ltb (length bytes) 5 || ltb 8 (length bytes))
      (response_wrong_length ins_get_firmware_version (length bytes))
  loader_major ← loader_byte 5 bytes
  loader_minor ← loader_byte 6 bytes
  flags ← index bytes 0
  architecture ← index bytes 1
  major ← index bytes 2
  minor ← index bytes 3
  patch ← index bytes 4
  ok (record {
    compressed = has_flag flags 0x01;
    has_screen_and_buttons = has_flag flags 0x02;
    external_screen_and_buttons = has_flag flags 0x04;
    nfc_payment_ext = has_flag flags 0x08;
    ble_low_power_ext = has_flag flags 0x10;
    tee = has_flag flags 0x20;
    architecture = architecture;
    major_version = major;
    minor_version = minor;
    patch_version = patch;
    loader_major_version = loader_major;
    loader_minor_version = loader_minor;
  })
