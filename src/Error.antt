-- ===== src/Error.antt =====
-- src/error.rs: the errors of the library, with the payloads of the source.
-- A payload that comes from another crate (hid, secp256k1, bitcoin, std) is a number that names it.
use icebox.Prelude.{ℕ}

pub data Error : Type 0 where
  base58 : ℕ → Error
  hid : ℕ → Error
  io : ℕ → Error
  secp : ℕ → Error
  utf8 : ℕ → Error
  dongle_not_found dongle_not_unique : Error
  apdu_bad_status : ℕ → Error
  apdu_wrong_channel apdu_wrong_tag apdu_wrong_sequence : Error
  response_wrong_length : ℕ → ℕ → Error
  insufficient_funds : ℕ → ℕ → Error
  wallet_full : Error
  wallet_wrong_size : ℕ → Error
  wallet_wrong_magic : ℕ → Error
  user_id_too_long : ℕ → ℕ → Error
  note_too_long : ℕ → ℕ → Error
  entry_out_of_range : ℕ → Error
  address_not_found double_receive bad_signature unsupported unexpected_eof : Error
