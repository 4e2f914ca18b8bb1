-- ===== src/Examples/Discovering.antt =====
-- src/dongle/ledger.rs: `get_unique` on a bus with a keyboard and a dongle.
use icebox.Prelude.{ℕ, ◌≤◌, ◌≡◌, ◌⊎◌, refl, List, [], ◌∷◌, some, length}
use icebox.Error.{dongle_not_found, dongle_not_unique}
use icebox.Outcome.{ok, err, done, failed}
use icebox.Dongle.Discovery.{Device, is_nano_s, nano_s_devices, AllOpen, get_unique, get_unique_lem}

abbrev keyboard : Device ℕ
keyboard = record {
  product_id = 0x0001;
  vendor_id = 0x046d;
  interface_number = 0;
  usage_page = 6;
  open_device = failed 13;
}

abbrev nano_s : Device ℕ
nano_s = record {
  product_id = 0x0001;
  vendor_id = 0x2c97;
  interface_number = 0;
  usage_page = 0xffa0;
  open_device = done 5;
}

abbrev bus : List (Device ℕ)
bus = keyboard ∷ nano_s ∷ []

all_open : AllOpen (nano_s_devices bus)
unfolding is_nano_s
all_open = ((5, refl), tt)

get_unique_example :
    ((nano_s_devices bus ≡ []) × (get_unique (done bus) ≡ err dongle_not_found))
    ⊎ ((dev : Device ℕ) × (handle : ℕ) × (nano_s_devices bus ≡ dev ∷ [])
        × (dev.open_device ≡ done handle)
        × (get_unique (done bus) ≡ ok (some handle)))
    ⊎ ((2 ≤ length (nano_s_devices bus)) × (get_unique (done bus) ≡ err dongle_not_unique))
get_unique_example = get_unique_lem bus all_open
