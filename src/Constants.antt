-- ===== src/Constants.antt =====
-- src/constants.rs, the constants that the modelled code uses.
use icebox.Prelude.{ℕ, ◌+◌}

-- hid::nano_s
abbrev pub vendor_id : ℕ
vendor_id = 0x2c97

abbrev pub product_id : ℕ
product_id = 0x0001

-- apdu::ledger
abbrev pub default_channel : ℕ
default_channel = 0x0101

abbrev pub tag_apdu : ℕ
tag_apdu = 0x05

abbrev pub packet_size : ℕ
packet_size = 64

abbrev pub max_apdu_size : ℕ
max_apdu_size = 255 + 5

abbrev pub btchip_cla : ℕ
btchip_cla = 0xe0

-- apdu::ledger::ins
abbrev pub ins_set_alternate_coin_version : ℕ
ins_set_alternate_coin_version = 0x14

abbrev pub ins_get_wallet_public_key : ℕ
ins_get_wallet_public_key = 0x40

abbrev pub ins_get_trusted_input : ℕ
ins_get_trusted_input = 0x42

abbrev pub ins_untrusted_hash_transaction_input_start : ℕ
ins_untrusted_hash_transaction_input_start = 0x44

abbrev pub ins_untrusted_hash_sign : ℕ
ins_untrusted_hash_sign = 0x48

abbrev pub ins_untrusted_hash_transaction_input_finalize : ℕ
ins_untrusted_hash_transaction_input_finalize = 0x4a

abbrev pub ins_sign_message : ℕ
ins_sign_message = 0x4e

abbrev pub ins_get_random : ℕ
ins_get_random = 0xc0

abbrev pub ins_get_firmware_version : ℕ
ins_get_firmware_version = 0xc4

-- wallet
abbrev pub magic : ℕ
magic = 0x3160_f90d_aae5_0001

abbrev pub magic_testnet : ℕ
magic_testnet = 0x3160_f90d_aae5_0002

abbrev pub decrypted_entry_size : ℕ
decrypted_entry_size = 336

abbrev pub encrypted_entry_size : ℕ
encrypted_entry_size = 352

abbrev pub max_user_id_bytes : ℕ
max_user_id_bytes = 32

abbrev pub max_note_bytes : ℕ
max_note_bytes = 80

abbrev pub change_dust : ℕ
change_dust = 10000

-- apdu::ledger::sw
abbrev pub sw_ok : ℕ
sw_ok = 0x9000
