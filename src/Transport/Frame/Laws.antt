-- ===== src/Transport/Frame/Laws.antt =====
-- What one frame carries: the round trip of a frame, its size, and what every accepted frame does.
use icebox.Prelude.{
  ℕ, suc, ◌+◌, ◌-◌, ◌*◌, ◌/◌, ◌%◌, ◌≤◌, ◌<◌, min, ◌≡◌, sym, ◌∙◌, ◌⊎◌, inl, inr, List, ◌++◌, true,
  false, Bool-cases, ltb, ◌==◌, arith, length, take, drop, replicate, if◌then◌else◌, length-append,
  length-take, length-replicate, take_all, drop_all, take-append_exact, All, All-get_or, All-append,
  All-take, All-replicate,
}
use icebox.Outcome.{ok, Returns}
use icebox.Bytes.{IsByte, read_u16}
use icebox.Transport.Frame.{
  header_len, packet_len, frame_header, data_frame, remaining, read_frame, fill_frame,
}

pub packet_len_bounds : (n : ℕ) → (57 ≤ packet_len n) × (packet_len n ≤ 59)
unfolding packet_len header_len
packet_len_bounds n = ground arith

pub remaining-eq-drop : (n : ℕ) (m : List ℕ) → remaining n m ≡ drop (packet_len n) m
unfolding remaining
remaining-eq-drop n m = elim (Bool-cases (ltb (packet_len n) (length m))) [
  | inl t ↦ rw t
  | inr t ↦ rw t (drop_all _ m (omega arith) ∙ sym (drop_all _ m (ground arith)))
]

chunk-eq-take : (k : ℕ) (m : List ℕ) → (if ltb k (length m) then take k m else m) ≡ take k m
chunk-eq-take k m = elim (Bool-cases (ltb k (length m))) [
  | inl t ↦ rw t
  | inr t ↦ rw t (sym (take_all k m (ground arith)))
]

pub data_frame_lem :
    (n : ℕ) (m : List ℕ)
    → data_frame n m
      ≡ frame_header n (length m)
        ++ (take (packet_len n) m ++ replicate (packet_len n - min (packet_len n) (length m)) 0)
unfolding data_frame
data_frame_lem n m = rw (chunk-eq-take (packet_len n) m, length-take (packet_len n) m)

length-frame_header : (n len : ℕ) → length (frame_header n len) + packet_len n ≡ 64
unfolding frame_header packet_len header_len
length-frame_header n len = ground arith

-- Every frame that is written has 64 bytes.
pub length-data_frame : (n : ℕ) (m : List ℕ) → length (data_frame n m) ≡ 64
length-data_frame n m = rw data_frame_lem (
    rw (length-append, length-append, length-take, length-replicate)
      (omega (arith, length-frame_header n (length m))))

pub fill_frame_full : (bytes : List ℕ) → length bytes ≡ 64 → fill_frame bytes ≡ bytes
unfolding fill_frame
fill_frame_full bytes h = take-append_exact 64 bytes _ h

payload :
    (k : ℕ) (m : List ℕ)
    → take (min (length m) k) (take k m ++ replicate (k - min k (length m)) 0) ≡ take k m
payload k m = take-append_exact _ (take k m) _ (omega (arith, length-take k m))

suc-eqb-zero : (n : ℕ) → (suc n == 0) ≡ false
suc-eqb-zero n = ground arith

eqb_refl : (n : ℕ) → (n == n) ≡ true
eqb_refl n = ground arith

-- Reading a frame that was written gives the length that is left, and adds the bytes that the
-- frame carries.
pub read_frame-data_frame_first :
    (r : ℕ) (ret m : List ℕ)
    → length m < 0x10000
    → read_frame 0 r ret (data_frame 0 m) ≡ ok (length m - packet_len 0, take (packet_len 0) m)
unfolding read_frame frame_header packet_len header_len
read_frame-data_frame_first r ret m h =
    let len : length m / 256 % 256 * 256 + length m % 256 ≡ length m = omega arith in
    let size : 7 + min (length m) 57 - 7 ≡ min (length m) 57 = omega arith in
    let left : length m - min (length m) 57 ≡ length m - 57 = omega arith in
    rw (data_frame_lem, len, size, left, payload 57 m)

pub read_frame-data_frame_next :
    (n : ℕ) (ret m : List ℕ)
    → suc n < 0x10000
    → read_frame (suc n) (length m) ret (data_frame (suc n) m)
      ≡ ok (length m - packet_len (suc n), ret ++ take (packet_len (suc n)) m)
unfolding read_frame frame_header packet_len header_len
read_frame-data_frame_next n ret m h =
    let number : suc n / 256 % 256 * 256 + suc n % 256 ≡ suc n = omega arith in
    let size : 5 + min (length m) 59 - 5 ≡ min (length m) 59 = omega arith in
    let left : length m - min (length m) 59 ≡ length m - 59 = omega arith in
    rw (data_frame_lem, suc-eqb-zero n, number, eqb_refl (suc n), size, left, payload 59 m)

read_u16-lt : (i : ℕ) (frame : List ℕ) → All IsByte frame → read_u16 i frame < 0x10000
read_u16-lt i frame h = omega (
  arith,
  All-get_or IsByte frame i 0 h (omega arith),
  All-get_or IsByte frame (i + 1) 0 h (omega arith),
)

-- The length that is left after the first frame fits 16 bits.
pub read_frame_first_bound :
    (r r' : ℕ) (ret ret' frame : List ℕ)
    → All IsByte frame
    → read_frame 0 r ret frame ≡ ok (r', ret')
    → (r' + 57 < 0x10000) ⊎ (r' ≡ 0)
unfolding read_frame packet_len header_len
read_frame_first_bound r r' ret ret' frame bytes h = ground (arith, read_u16-lt 5 frame bytes)

-- A later frame takes a byte of the length at least.
pub read_frame_next_bound :
    (n r r' : ℕ) (ret ret' frame : List ℕ)
    → 0 < n
    → read_frame n (suc r) ret frame ≡ ok (r', ret')
    → r' ≤ r
unfolding read_frame
read_frame_next_bound n r r' ret ret' frame pos h = ground (arith, packet_len_bounds n)

pub read_frame-Returns : (n r : ℕ) (ret frame : List ℕ) → Returns (read_frame n r ret frame)
unfolding read_frame
read_frame-Returns n r ret frame = ground arith

pub fill_frame-IsByte : (bytes : List ℕ) → All IsByte bytes → All IsByte (fill_frame bytes)
unfolding fill_frame
fill_frame-IsByte bytes h =
    All-take IsByte 64 _ (All-append IsByte bytes _ h (All-replicate IsByte 64 0 (omega arith)))

pub length-fill_frame : (bytes : List ℕ) → length (fill_frame bytes) ≡ 64
unfolding fill_frame
length-fill_frame bytes = rw (length-take, length-append, length-replicate) (omega arith)
