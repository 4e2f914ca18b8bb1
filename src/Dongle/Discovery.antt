-- ===== src/Dongle/Discovery.antt =====
-- src/dongle/ledger.rs: `get_unique`. The devices that the HID library lists are its argument.
use icebox.Prelude.{
  ℕ, zero, suc, ◌+◌, ◌≤◌, ◌≡◌, refl, ap, subst, ◌∙◌, ◌==◌, ◌&&◌, ◌||◌, Bool, Bool-cases, Option,
  none, some, List, [], ◌∷◌, length, arith, ◌⊎◌, inl, inr, if◌then◌else◌,
}
use icebox.Error.{hid, dongle_not_found, dongle_not_unique}
use icebox.Outcome.{Outcome, ok, err, Foreign, done, from_foreign, ◌>>=◌}
use icebox.Constants.{vendor_id, product_id}

-- A device of the library. An interface number below 0 stands for none, and is some other number here.
pub record Device (Handle : Type 0) : Type 0 where
  pub product_id : ℕ
  pub vendor_id : ℕ
  pub interface_number : ℕ
  pub usage_page : ℕ
  pub open_device : Foreign Handle

module _ {Handle : Type 0} where
  unfoldable pub is_nano_s : Device Handle → Bool
  is_nano_s dev =
      (dev.product_id == product_id)
      && ((dev.vendor_id == vendor_id)
          && ((dev.interface_number == 0) || (dev.usage_page == 0xffa0)))

  -- The loop, with the number of devices found and the last handle.
  unfoldable pub scan : List (Device Handle) → ℕ → Option Handle → Outcome (ℕ × Option Handle)
  scan [] found_count found_dev = ok (found_count, found_dev)
  scan (dev ∷ devices) found_count found_dev =
      if is_nano_s dev
      then (do
        handle ← from_foreign hid dev.open_device
        scan devices (found_count + 1) (some handle))
      else scan devices found_count found_dev

  abbrev pub by_count : ℕ × Option Handle → Outcome (Option Handle)
  by_count (zero, found_dev) = err dongle_not_found
  by_count (suc zero, found_dev) = ok found_dev
  by_count (suc (suc n), found_dev) = err dongle_not_unique

  -- The handle of the dongle. The argument is what the library lists, or its error.
  unfoldable pub get_unique : Foreign (List (Device Handle)) → Outcome (Option Handle)
  get_unique listed = do
    devices ← from_foreign hid listed
    found ← scan devices 0 none
    by_count found

  -- The devices that are a Nano S.
  abbrev pub nano_s_devices : List (Device Handle) → List (Device Handle)
  nano_s_devices [] = []
  nano_s_devices (dev ∷ devices) =
      if is_nano_s dev then dev ∷ nano_s_devices devices else nano_s_devices devices

  -- Each of the devices opens.
  abbrev pub AllOpen : List (Device Handle) → Type 0
  AllOpen [] = Unit
  AllOpen (dev ∷ devices) = ((handle : Handle) × (dev.open_device ≡ done handle)) × AllOpen devices

  -- The handle of the last device of the list, or the one before.
  abbrev LastOpens : Option Handle → List (Device Handle) → Option Handle → Type 0
  LastOpens before [] last = last ≡ before
  LastOpens before (dev ∷ devices) last =
      (handle : Handle) × (dev.open_device ≡ done handle) × LastOpens (some handle) devices last

  scan_lem :
      (devices : List (Device Handle)) (n : ℕ) (before : Option Handle)
      → AllOpen (nano_s_devices devices)
      → (last : Option Handle) × (scan devices n before
          ≡ ok (n + length (nano_s_devices devices), last))
        × LastOpens before (nano_s_devices devices) last
  unfolding scan
  scan_lem [] n before opens = (before, ap (λ k. ok (k, before)) (omega arith), refl)
  scan_lem (dev ∷ devices) n before opens =
      let rest : List (Device Handle) = nano_s_devices devices in
      elim (Bool-cases (is_nano_s dev)) [
        | inl is_match ↦
            (let ((handle, is_open), others) : AllOpen (dev ∷ rest) =
                subst (λ b. AllOpen (if b then dev ∷ rest else rest)) is_match opens in
              let (last, scanned, opened) = scan_lem devices (n + 1) (some handle) others in
              rw is_match (
                last,
                rw is_open (scanned ∙ ap (λ k. ok (k, last)) (omega arith)),
                (handle, is_open, opened),
              ))
        | inr is_other ↦
            (let others : AllOpen rest =
                subst (λ b. AllOpen (if b then dev ∷ rest else rest)) is_other opens in
              rw is_other (scan_lem devices n before others))
      ]

  decide :
      (found : List (Device Handle)) (last : Option Handle) (result : Outcome (Option Handle))
      → result ≡ by_count (length found, last)
      → LastOpens none found last
      → ((found ≡ []) × (result ≡ err dongle_not_found))
        ⊎ ((dev : Device Handle) × (handle : Handle) × (found ≡ dev ∷ [])
            × (dev.open_device ≡ done handle)
            × (result ≡ ok (some handle)))
        ⊎ ((2 ≤ length found) × (result ≡ err dongle_not_unique))
  decide [] last result e opened = inl (refl, e)
  decide (dev ∷ []) last result e (handle, is_open, is_last) =
      inr (inl (dev, handle, refl, is_open, e ∙ ap ok is_last))
  decide (dev ∷ dev2 ∷ found) last result e opened = inr (inr (omega arith, e))

  -- When the library lists the devices and each Nano S among them opens: without a Nano S `get_unique`
  -- fails with `DongleNotFound`, with a single one it gives the handle of that one, and with more it
  -- fails with `DongleNotUnique`.
  pub get_unique_lem :
      (devices : List (Device Handle))
      → AllOpen (nano_s_devices devices)
      → ((nano_s_devices devices ≡ []) × (get_unique (done devices) ≡ err dongle_not_found))
        ⊎ ((dev : Device Handle) × (handle : Handle) × (nano_s_devices devices ≡ dev ∷ [])
            × (dev.open_device ≡ done handle)
            × (get_unique (done devices) ≡ ok (some handle)))
        ⊎ ((2 ≤ length (nano_s_devices devices))
            × (get_unique (done devices) ≡ err dongle_not_unique))
  unfolding get_unique
  get_unique_lem devices opens =
      let (last, scanned, opened) = scan_lem devices 0 none opens in
      let counted : get_unique (done devices) ≡ by_count (length (nano_s_devices devices), last) =
        rw scanned (ap (λ k. by_count (k, last)) (omega arith)) in
      decide (nano_s_devices devices) last (get_unique (done devices)) counted opened
