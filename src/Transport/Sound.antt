-- ===== src/Transport/Sound.antt =====
-- What `read_apdu` accepts: reports in order, each with the channel, the tag and its number.
use icebox.Prelude.{
  ℕ, zero, suc, ◌+◌, ◌-◌, ◌*◌, ◌/◌, ◌≤◌, ◌<◌, min, ◌≡◌, refl, ap, sym, ◌∙◌, Option, none, some,
  List, [], ◌∷◌, ◌++◌, ltb, arith, length, take, drop, length-drop, append-nil, append_assoc,
  get_or, take-append, take_all, length-append, length-take, ltb→lt, Bool-cases, inl, inr,
}
use icebox.Outcome.{done, Outcome, ok}
use icebox.Constants.{default_channel, tag_apdu}
use icebox.Bytes.{read_u16}
use icebox.Io.{Hid, from_hid, from_hid_ok, continue_elim}
use icebox.Transport.Frame.{
  header_len, packet_len, next_sequence_no, received, read_frame, fill_frame,
}
use icebox.Transport.Frame.Laws.{length-fill_frame}
use icebox.Transport.Apdu.{read_loop, read_apdu}
use icebox.Transport.Delivery.{Delivers}

-- Reports with the channel, the tag and the numbers from `n` on.
abbrev pub Numbered : ℕ → List (List ℕ) → Type 0
Numbered n [] = Unit
Numbered n (raw ∷ rs) =
    (read_u16 0 (fill_frame raw) ≡ default_channel)
    × (get_or (fill_frame raw) 2 0 ≡ tag_apdu)
    × (read_u16 3 (fill_frame raw) ≡ n)
    × Numbered (n + 1) rs

-- What stands behind the headers of the reports from number `n` on.
unfoldable pub payloads : ℕ → List (List ℕ) → List ℕ
payloads n [] = []
payloads n (raw ∷ rs) = drop (header_len n) (fill_frame raw) ++ payloads (n + 1) rs

-- The length that the first report declares.
abbrev pub declared : List ℕ → ℕ
declared first = read_u16 5 (fill_frame first)

read_frame_accepts :
    (n r : ℕ) (ret frame : List ℕ) (x : ℕ × List ℕ)
    → read_frame n r ret frame ≡ ok x
    → (read_u16 0 frame ≡ default_channel) × (get_or frame 2 0 ≡ tag_apdu) × (read_u16 3 frame ≡ n)
unfolding read_frame
read_frame_accepts n r ret frame x e = ground arith

read_frame_next :
    (n r : ℕ) (ret frame : List ℕ) (x : ℕ × List ℕ)
    → 0 < n
    → read_frame n r ret frame ≡ ok x
    → (x.0 ≡ r - min r 59) × (x.1 ≡ ret ++ take (min r 59) (drop 5 frame))
unfolding read_frame packet_len header_len
read_frame_next n r ret frame x pos e =
    let size : 5 + min r 59 - 5 ≡ min r 59 = omega arith in
    ground (arith, ap (λ t. ret ++ take t (drop 5 frame)) size)

read_frame_first :
    (r : ℕ) (ret frame : List ℕ) (x : ℕ × List ℕ)
    → read_frame 0 r ret frame ≡ ok x
    → (x.0 ≡ read_u16 5 frame - min (read_u16 5 frame) 57)
      × (x.1 ≡ take (min (read_u16 5 frame) 57) (drop 7 frame))
unfolding read_frame packet_len header_len
read_frame_first r ret frame x e =
    let len = read_u16 5 frame in
    let size : 7 + min len 57 - 7 ≡ min len 57 = omega arith in
    ground (arith, ap (λ t. take t (drop 7 frame)) size)

take-min : (r : ℕ) (xs : List ℕ) (room : ℕ) → length xs ≡ room → take (min r room) xs ≡ take r xs
take-min r xs room h = elim (Bool-cases (ltb r room)) [
  | inl t ↦ let e : min r room ≡ r = ground arith in rw e
  | inr t ↦ rw (take_all (min r room) xs (ground arith), take_all r xs (ground arith))
]

-- The bytes taken from one frame join those of the next ones.
take_step :
    (r room : ℕ) (xs ys : List ℕ)
    → length xs ≡ room
    → take (min r room) xs ++ take (r - min r room) ys ≡ take r (xs ++ ys)
take_step r room xs ys h =
    let left : r - min r room ≡ r - length xs = omega arith in
    rw (take-append, left) (ap (λ t. t ++ take (r - length xs) ys) (take-min r xs room h))

minus_min : (r room : ℕ) → r - min r room ≡ r - room
minus_min r room = elim (Bool-cases (ltb r room)) [
  | inl t ↦ let e : min r room ≡ r = ground arith in omega (arith, e, ltb→lt r room t)
  | inr t ↦ let e : min r room ≡ room = ground arith in omega (arith, e)
]

one_more : (r : ℕ) → 0 < r → suc ((r - min r 59 + 58) / 59) ≡ (r + 58) / 59
one_more r pos = omega (arith, minus_min r 59)

length-payloads : (n : ℕ) (rs : List (List ℕ)) → 0 < n → length (payloads n rs) ≡ 59 * length rs
unfolding payloads
length-payloads n [] pos = refl
length-payloads n (raw ∷ rs) pos =
    let five : header_len n ≡ 5 = unfold header_len in ground arith in
    rw five (
      omega (
        arith,
        length-append (drop 5 (fill_frame raw)) (payloads (n + 1) rs),
        length-drop 5 (fill_frame raw),
        length-fill_frame raw,
        length-payloads (n + 1) rs (omega arith),
      ))

read_value :
    {H : Type 0} {a b : List ℕ} {h h' : H}
    → ◌≡◌ {A = Outcome (List ℕ) × H} (ok a, h) (ok b, h')
    → a ≡ b
read_value e = cc (ap (λ t. t.0) e)

received_ok :
    (o : Option (List ℕ)) (frame : List ℕ)
    → received o ≡ ok frame
    → (raw : List ℕ) × (o ≡ some raw) × (frame ≡ fill_frame raw)
unfolding received
received_ok none frame e = cc
received_ok (some raw) frame e = (raw, refl, cc)

module _ {H : Type 0} (hid : Hid H) where
  -- One successful round: a report, a frame that is accepted, and the rest of the loop.
  record Round (fuel n r : ℕ) (ret m : List ℕ) (h h' : H) : Type 0 where
    raw : List ℕ
    x : ℕ × List ℕ
    delivered : (hid.read h).0 ≡ done (some raw)
    accepted : read_frame n r ret (fill_frame raw) ≡ ok x
    rest : read_loop hid fuel (n + 1) x.0 x.1 (hid.read h).1 ≡ (ok m, h')

  round :
      (fuel n r : ℕ) (ret m : List ℕ) (h h' : H)
      → read_loop hid (suc fuel) n (suc r) ret h ≡ (ok m, h')
      → Round fuel n (suc r) ret m h h'
  unfolding read_loop next_sequence_no
  round fuel n r ret m h h' e = continue_elim (from_hid (hid.read h).0) _ _ e λ read_n got e1.
      continue_elim (received read_n) _ _ e1 λ frame filled e2.
        continue_elim (read_frame n (suc r) ret frame) _ _ e2 λ x read e3.
          continue_elim (next_sequence_no n) _ _ e3 λ next number e4.
            let (raw, is_some, is_filled) = received_ok read_n frame filled in
            let value : n + 1 ≡ next = ground arith in
            record {
              raw = raw;
              x = x;
              delivered = from_hid_ok _ _ (got ∙ ap ok is_some);
              accepted = rw (← is_filled) read;
              rest = rw value e4;
            }

  -- From reports that were read in order comes a message that they carry.
  abbrev pub CarriedBy : ℕ → ℕ → List ℕ → List ℕ → H → H → Type 0
  CarriedBy n r ret m h h' =
      (rs : List (List ℕ)) × Delivers hid rs h h'
      × Numbered n rs
      × (m ≡ ret ++ take r (payloads n rs))
      × (length rs ≡ (r + 58) / 59)

  extend :
      (fuel n r : ℕ) (ret m : List ℕ) (h h' : H) (c : Round fuel n r ret m h h')
      → 0 < r
      → 0 < n
      → CarriedBy (n + 1) c.x.0 c.x.1 m (hid.read h).1 h'
      → CarriedBy n r ret m h h'
  unfolding payloads
  extend fuel n r ret m h h' c some_left pos (rs, d, num, e, count) =
      let tail : List ℕ = drop 5 (fill_frame c.raw) in
      let size : length tail ≡ 59 =
        omega (arith, length-fill_frame c.raw, length-drop 5 (fill_frame c.raw)) in
      let (channel, tag, number) = read_frame_accepts n r ret (fill_frame c.raw) c.x c.accepted in
      let (left, bytes) = read_frame_next n r ret (fill_frame c.raw) c.x pos c.accepted in
      let five : header_len n ≡ 5 = unfold header_len in ground arith in
      (
        c.raw ∷ rs,
        (c.delivered, d),
        (channel, tag, number, num),
        rw (e, bytes, left, five, append_assoc, take_step r 59 tail (payloads (n + 1) rs) size),
        ap suc (count ∙ ap (λ t. (t + 58) / 59) left) ∙ one_more r some_left,
      )

  read_loop_sound :
      (fuel n r : ℕ) (ret m : List ℕ) (h h' : H)
      → 0 < n
      → read_loop hid fuel n r ret h ≡ (ok m, h')
      → CarriedBy n r ret m h h'
  unfolding read_loop payloads
  read_loop_sound fuel n zero ret m h h' pos e =
      ([], ap (λ t. t.1) e, tt, rw append-nil (sym (read_value e)), refl)
  read_loop_sound zero n (suc r) ret m h h' pos e = absurd (cc (ap (λ t. t.0) e))
  read_loop_sound (suc fuel) n (suc r) ret m h h' pos e =
      let c = round fuel n r ret m h h' e in
      extend fuel n (suc r) ret m h h' c (omega arith) pos
        (read_loop_sound fuel (n + 1) c.x.0 c.x.1 m _ h' (omega arith) c.rest)

  -- What `read_apdu` read, for a message.
  abbrev pub Complete : List ℕ → H → H → Type 0
  Complete m h h' =
      (first : List ℕ) × (rest : List (List ℕ)) × Delivers hid (first ∷ rest) h h'
      × Numbered 0 (first ∷ rest)
      × (m ≡ take (declared first) (payloads 0 (first ∷ rest)))
      × (length m ≡ declared first)
      × (length rest ≡ (declared first - 57 + 58) / 59)

  start :
      (m : List ℕ) (h h' : H) (c : Round 0xffff 0 1 [] m h h')
      → CarriedBy 1 c.x.0 c.x.1 m (hid.read h).1 h'
      → Complete m h h'
  unfolding payloads
  start m h h' c (rs, d, num, e, count) =
      let tail : List ℕ = drop 7 (fill_frame c.raw) in
      let size : length tail ≡ 57 =
        omega (arith, length-fill_frame c.raw, length-drop 7 (fill_frame c.raw)) in
      let (channel, tag, number) = read_frame_accepts 0 1 [] (fill_frame c.raw) c.x c.accepted in
      let (left, bytes) = read_frame_first 1 [] (fill_frame c.raw) c.x c.accepted in
      let seven : header_len 0 ≡ 7 = unfold header_len in refl in
      let number_of : length rs ≡ (declared c.raw - 57 + 58) / 59 =
        count ∙ ap (λ t. (t + 58) / 59) (left ∙ minus_min (declared c.raw) 57) in
      let carried : m ≡ take (declared c.raw) (payloads 0 (c.raw ∷ rs)) =
        rw (e, bytes, left, seven) (take_step (declared c.raw) 57 tail (payloads 1 rs) size) in
      let room : declared c.raw ≤ length (payloads 0 (c.raw ∷ rs)) = rw seven (
        omega (
          arith,
          length-append tail (payloads 1 rs),
          size,
          number_of,
          length-payloads 1 rs (omega arith),
        )) in
      let full : length m ≡ declared c.raw =
        ap length carried
        ∙ omega (arith, room, length-take (declared c.raw) (payloads 0 (c.raw ∷ rs))) in
      (c.raw, rs, (c.delivered, d), (channel, tag, number, num), carried, full, number_of)

  -- A message comes from `read_apdu` only if the device handed out reports, each with the channel,
  -- the tag and its number in order; it is the first bytes behind their headers, exactly as many as the
  -- first report declares, and after the first report of 57 bytes as many reports of 59 bytes were
  -- read as hold the rest of these.
  pub read_apdu_sound : (m : List ℕ) (h h' : H) → read_apdu hid h ≡ (ok m, h') → Complete m h h'
  unfolding read_apdu payloads
  read_apdu_sound m h h' e =
      let c = round 0xffff 0 0 [] m h h' e in
      start m h h' c (read_loop_sound 0xffff 1 c.x.0 c.x.1 m _ h' (omega arith) c.rest)
