-- ===== src/Transport/Delivery.antt =====
-- The loops of `write_apdu` and `read_apdu` against a description of the frames of a message, and
-- against any device.
use icebox.Prelude.{
  ℕ, zero, suc, ◌+◌, ◌≤◌, ◌<◌, ◌≡◌, ap, subst, ◌⊎◌, Option, none, some, List, [], ◌∷◌, ◌++◌, lt→ltb,
  arith, length, take, drop, length-drop, append-nil, append_assoc, take-append-drop, All,
}
use icebox.Outcome.{done, ok, Returns}
use icebox.Bytes.{IsByte}
use icebox.Io.{Hid, from_hid, continue, from_hid_ok, continue-Returns, from_hid-Returns}
use icebox.Transport.Frame.{
  packet_len, data_frame, next_sequence_no, received, read_frame, fill_frame,
}
use icebox.Transport.Frame.Laws.{
  packet_len_bounds, remaining-eq-drop, length-data_frame, fill_frame_full,
  read_frame-data_frame_first, read_frame-data_frame_next, read_frame_first_bound,
  read_frame_next_bound, read_frame-Returns, fill_frame-IsByte,
}
use icebox.Transport.Apdu.{write_loop, write_apdu, read_loop, read_apdu}

-- The frames that carry a message from sequence number `n` on, for at most `k` frames.
unfoldable pub frames : ℕ → ℕ → List ℕ → List (List ℕ)
frames k n [] = []
frames zero n (b ∷ bs) = []
frames (suc k) n (b ∷ bs) = data_frame n (b ∷ bs) ∷ frames k (n + 1) (drop (packet_len n) (b ∷ bs))

abbrev pub apdu_frames : List ℕ → List (List ℕ)
apdu_frames message = frames (length message) 0 message

received-Returns : (o : Option (List ℕ)) → Returns (received o)
unfolding received
received-Returns none = tt
received-Returns (some bytes) = tt

module _ {H : Type 0} (hid : Hid H) where
  -- The device takes these reports one after the other, and goes from one state to the other.
  abbrev pub Accepts : List (List ℕ) → H → H → Type 0
  Accepts [] h h' = h ≡ h'
  Accepts (f ∷ fs) h h' = ((hid.write f h).0 ≡ done tt) × Accepts fs (hid.write f h).1 h'

  -- The device hands out these reports one after the other.
  abbrev pub Delivers : List (List ℕ) → H → H → Type 0
  Delivers [] h h' = h ≡ h'
  Delivers (f ∷ fs) h h' = ((hid.read h).0 ≡ done (some f)) × Delivers fs (hid.read h).1 h'

  -- Whatever the device hands out is a string of bytes.
  abbrev pub ReadsBytes : Type 0
  ReadsBytes = (h : H) (bytes : List ℕ) → (hid.read h).0 ≡ done (some bytes) → All IsByte bytes

  write_loop_lem :
      (fuel k n : ℕ) (m : List ℕ) (h h' : H)
      → length m ≤ fuel
      → length m ≤ k
      → n + length m < 0x10000
      → Accepts (frames k n m) h h'
      → write_loop hid fuel n m h ≡ (ok tt, h')
  unfolding write_loop frames next_sequence_no
  write_loop_lem fuel k n [] h h' hf hk hn a = ap (λ t. (ok tt, t)) a
  write_loop_lem zero k n (b ∷ bs) h h' hf hk hn a = absurd (omega arith)
  write_loop_lem (suc fuel) zero n (b ∷ bs) h h' hf hk hn a = absurd (omega arith)
  write_loop_lem (suc fuel) (suc k) n (b ∷ bs) h h' hf hk hn a =
      rw (a.0, lt→ltb (n + 1) 0x10000 (omega arith), remaining-eq-drop)
        (write_loop_lem fuel k (n + 1) (drop (packet_len n) (b ∷ bs)) _ h'
          (omega (arith, length-drop (packet_len n) (b ∷ bs), packet_len_bounds n))
          (omega (arith, length-drop (packet_len n) (b ∷ bs), packet_len_bounds n))
          (omega (arith, length-drop (packet_len n) (b ∷ bs), packet_len_bounds n)) a.1)

  read_loop_lem :
      (fuel k n : ℕ) (m ret : List ℕ) (h h' : H)
      → length m ≤ fuel
      → length m ≤ k
      → suc n + length m < 0x10000
      → Delivers (frames k (suc n) m) h h'
      → read_loop hid fuel (suc n) (length m) ret h ≡ (ok (ret ++ m), h')
  unfolding read_loop frames next_sequence_no received
  read_loop_lem fuel k n [] ret h h' hf hk hn d = rw (append-nil, d)
  read_loop_lem zero k n (b ∷ bs) ret h h' hf hk hn d = absurd (omega arith)
  read_loop_lem (suc fuel) zero n (b ∷ bs) ret h h' hf hk hn d = absurd (omega arith)
  read_loop_lem (suc fuel) (suc k) n (b ∷ bs) ret h h' hf hk hn d =
      let room = packet_len (suc n) in
      let next : suc n + 1 ≡ suc (n + 1) = omega arith in
      let rest : Delivers (frames k (suc (n + 1)) (drop room (b ∷ bs))) (hid.read h).1 h' =
        subst (λ t. Delivers (frames k t (drop room (b ∷ bs))) (hid.read h).1 h') next d.1 in
      let shorter : length (drop room (b ∷ bs)) < length (b ∷ bs) =
        omega (arith, length-drop room (b ∷ bs), packet_len_bounds (suc n)) in
      rw (
        d.0,
        fill_frame_full _ (length-data_frame (suc n) (b ∷ bs)),
        read_frame-data_frame_next n ret (b ∷ bs) (omega arith),
        lt→ltb (suc n + 1) 0x10000 (omega arith),
        next,
        ← length-drop room (b ∷ bs),
        read_loop_lem fuel k (n + 1) (drop room (b ∷ bs)) (ret ++ take room (b ∷ bs)) _ h'
            (omega arith) (omega arith) (omega arith) rest,
        append_assoc,
        take-append-drop,
      )

  -- For a message of 1 to 4095 bytes, on a device that takes the frames of the message:
  -- `write_apdu` writes these, in order, and no others, and succeeds.
  pub write_apdu_lem :
      (m : List ℕ) (h h' : H)
      → 0 < length m
      → length m < 0x1000
      → Accepts (apdu_frames m) h h'
      → write_apdu hid m h ≡ (ok tt, h')
  unfolding write_apdu
  write_apdu_lem m h h' pos small a =
      rw (lt→ltb 0 (length m) pos, lt→ltb (length m) 0x1000 small)
        (write_loop_lem (length m) (length m) 0 m h h' (omega arith) (omega arith) (omega arith) a)

  -- The frames of a message of 1 to 65535 bytes, cut as `write_apdu` cuts the messages that it takes
  -- (at most 4095 bytes), delivered in order, are read back by `read_apdu` as that message, and no
  -- more is read.
  pub read_apdu_lem :
      (m : List ℕ) (h h' : H)
      → 0 < length m
      → length m < 0x10000
      → Delivers (apdu_frames m) h h'
      → read_apdu hid h ≡ (ok m, h')
  unfolding read_apdu read_loop frames next_sequence_no received
  read_apdu_lem [] h h' pos small d = absurd (omega arith)
  read_apdu_lem (b ∷ bs) h h' pos small d =
      let room = packet_len 0 in
      let shorter : length (drop room (b ∷ bs)) < length (b ∷ bs) =
        omega (arith, length-drop room (b ∷ bs), packet_len_bounds 0) in
      rw (
        d.0,
        fill_frame_full _ (length-data_frame 0 (b ∷ bs)),
        read_frame-data_frame_first 1 [] (b ∷ bs) small,
        ← length-drop room (b ∷ bs),
        read_loop_lem 0xffff (length bs) 0 (drop room (b ∷ bs)) (take room (b ∷ bs)) _ h'
            (omega arith) (omega arith) (omega arith) d.1,
        take-append-drop,
      )

  read_loop_next :
      (fuel n r : ℕ) (ret : List ℕ) (h : H)
      → suc n + 1 < 0x10000
      → Returns (read_loop hid fuel (suc (n + 1)) r ret h).0
      → Returns (continue (next_sequence_no (suc n)) (λ next. read_loop hid fuel next r ret) h).0
  unfolding next_sequence_no
  read_loop_next fuel n r ret h hn k =
      let next : suc n + 1 ≡ suc (n + 1) = omega arith in rw (lt→ltb (suc n + 1) 0x10000 hn, next) k

  read_loop-Returns :
      (fuel n r : ℕ) (ret : List ℕ) (h : H)
      → r ≤ fuel
      → suc n + r < 0x10000
      → Returns (read_loop hid fuel (suc n) r ret h).0
  unfolding read_loop next_sequence_no received
  read_loop-Returns fuel n zero ret h hf hn = tt
  read_loop-Returns zero n (suc r) ret h hf hn = absurd (omega arith)
  read_loop-Returns (suc fuel) n (suc r) ret h hf hn =
      continue-Returns (from_hid (hid.read h).0) _ _ (from_hid-Returns (hid.read h).0) λ read_n _.
        continue-Returns (received read_n) _ _ (received-Returns read_n) λ frame _.
          continue-Returns (read_frame (suc n) (suc r) ret frame) _ _
            (read_frame-Returns (suc n) (suc r) ret frame)
            λ x e. read_loop_next fuel n x.0 x.1 _ (omega arith) (
              read_loop-Returns fuel (n + 1) x.0 x.1 _
                (omega (arith, read_frame_next_bound (suc n) r x.0 ret x.1 frame (omega arith) e))
                (omega (arith, read_frame_next_bound (suc n) r x.0 ret x.1 frame (omega arith) e)))

  received-IsByte :
      ReadsBytes
      → (h : H) (read_n : Option (List ℕ)) (frame : List ℕ) → from_hid (hid.read h).0 ≡ ok read_n
      → received read_n ≡ ok frame
      → All IsByte frame
  unfolding received
  received-IsByte bytes h none frame got e = cc
  received-IsByte bytes h (some raw) frame got e =
      let filled : fill_frame raw ≡ frame = cc in
      subst (All IsByte) filled
        (fill_frame-IsByte raw (bytes h raw (from_hid_ok (hid.read h).0 (some raw) got)))

  -- On every device that hands out bytes, in every state, `read_apdu` ends with a message or an
  -- error: neither in an overflow of the sequence number nor in an endless loop.
  pub read_apdu-Returns : ReadsBytes → (h : H) → Returns (read_apdu hid h).0
  unfolding read_apdu read_loop next_sequence_no received
  read_apdu-Returns bytes h =
      continue-Returns (from_hid (hid.read h).0) _ _ (from_hid-Returns (hid.read h).0) λ read_n got.
        continue-Returns (received read_n) _ _ (received-Returns read_n) λ frame filled.
          continue-Returns (read_frame 0 1 [] frame) _ _ (read_frame-Returns 0 1 [] frame) λ x e.
            let bound : (x.0 + 57 < 0x10000) ⊎ (x.0 ≡ 0) =
              read_frame_first_bound 1 x.0 [] x.1 frame
                (received-IsByte bytes h read_n frame got filled) e in
            read_loop-Returns 0xffff 0 x.0 x.1 _ (omega arith) (omega arith)

  write_loop-Returns :
      (fuel n : ℕ) (m : List ℕ) (h : H)
      → length m ≤ fuel
      → n + length m < 0x10000
      → Returns (write_loop hid fuel n m h).0
  unfolding write_loop next_sequence_no
  write_loop-Returns fuel n [] h hf hn = tt
  write_loop-Returns zero n (b ∷ bs) h hf hn = absurd (omega arith)
  write_loop-Returns (suc fuel) n (b ∷ bs) h hf hn =
      let shorter : length (drop (packet_len n) (b ∷ bs)) < length (b ∷ bs) =
        omega (arith, length-drop (packet_len n) (b ∷ bs), packet_len_bounds n) in
      continue-Returns (from_hid (hid.write (data_frame n (b ∷ bs)) h).0) _ _
        (from_hid-Returns (hid.write (data_frame n (b ∷ bs)) h).0)
        λ sent _.
          rw (lt→ltb (n + 1) 0x10000 (omega arith), remaining-eq-drop)
            (write_loop-Returns fuel (n + 1) (drop (packet_len n) (b ∷ bs)) _ (omega arith)
              (omega arith))

  -- Sending a message of 1 to 4095 bytes ends, sent or with an error of the device.
  pub write_apdu-Returns :
      (m : List ℕ) (h : H) → 0 < length m → length m < 0x1000 → Returns (write_apdu hid m h).0
  unfolding write_apdu
  write_apdu-Returns m h pos small =
      rw (lt→ltb 0 (length m) pos, lt→ltb (length m) 0x1000 small)
        (write_loop-Returns (length m) 0 m h (omega arith) (omega arith))
