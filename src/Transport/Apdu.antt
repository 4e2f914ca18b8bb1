-- ===== src/Transport/Apdu.antt =====
-- src/dongle/ledger.rs: the loops of `write_apdu` and `read_apdu` over the HID library.
use icebox.Prelude.{ℕ, zero, suc, Option, List, [], ◌∷◌, ltb, length}
use icebox.Outcome.{diverge, assert}
use icebox.Io.{Io, Hid, pure, lift, from_hid, ◌>>=◌, ◌>>◌}
use icebox.Transport.Frame.{data_frame, remaining, next_sequence_no, received, read_frame}

module _ {H : Type 0} (hid : Hid H) where
  unfoldable pub write_hid : List ℕ → Io H (Unit {0})
  write_hid frame h = (from_hid (hid.write frame h).0, (hid.write frame h).1)

  unfoldable pub write_loop : ℕ → ℕ → List ℕ → Io H (Unit {0})
  unfolding write_hid
  write_loop fuel sequence_no [] = pure tt
  write_loop zero sequence_no (b ∷ bs) = lift diverge
  write_loop (suc fuel) sequence_no (b ∷ bs) = do
    write_hid (data_frame sequence_no (b ∷ bs))
    next ← lift (next_sequence_no sequence_no)
    write_loop fuel next (remaining sequence_no (b ∷ bs))

  -- Each round takes a byte of the data at least, so its length is fuel enough.
  unfoldable pub write_apdu : List ℕ → Io H (Unit {0})
  write_apdu message = do
    lift (assert (ltb 0 (length message)))
    lift (assert (ltb (length message) 0x1000))
    write_loop (length message) 0 message

  unfoldable pub read_hid : Io H (Option (List ℕ))
  read_hid h = (from_hid (hid.read h).0, (hid.read h).1)

  unfoldable pub read_loop : ℕ → ℕ → ℕ → List ℕ → Io H (List ℕ)
  unfolding read_hid
  read_loop fuel sequence_no zero ret = pure ret
  read_loop zero sequence_no (suc receive_len) ret = lift diverge
  read_loop (suc fuel) sequence_no (suc receive_len) ret = do
    read_n ← read_hid
    frame ← lift (received read_n)
    (len, ret') ← lift (read_frame sequence_no (suc receive_len) ret frame)
    next ← lift (next_sequence_no sequence_no)
    read_loop fuel next len ret'

  -- 1 is the dummy length. The declared length fits 16 bits and falls in every round after the
  -- first, so 2 ^ 16 rounds are enough.
  unfoldable pub read_apdu : Io H (List ℕ)
  read_apdu = read_loop 0x10000 0 1 []
