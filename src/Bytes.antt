-- ===== src/Bytes.antt =====
-- Byte strings as lists of numbers, and the big-endian words of the byteorder crate.
use icebox.Prelude.{
  ℕ, ◌+◌, ◌*◌, ◌/◌, ◌%◌, ◌^◌, ◌<◌, ◌≡◌, refl, List, [], ◌∷◌, ◌++◌, arith, length, get_or, All,
  All-append,
}

abbrev pub IsByte : ℕ → Type 0
IsByte b = b < 256

-- `write_u16::<BigEndian>`
abbrev pub be_u16 : ℕ → List ℕ
be_u16 n = (n / 256 % 256) ∷ (n % 256) ∷ []

-- `write_u32::<BigEndian>`
abbrev pub be_u32 : ℕ → List ℕ
be_u32 n = (n / 2 ^ 24 % 256) ∷ (n / 2 ^ 16 % 256) ∷ (n / 2 ^ 8 % 256) ∷ (n % 256) ∷ []

-- `BigEndian::read_u16` of the two bytes at a position that the callers know to be in bounds.
abbrev pub read_u16 : ℕ → List ℕ → ℕ
read_u16 i xs = get_or xs i 0 * 256 + get_or xs (i + 1) 0

-- `write_u64::<BigEndian>`
abbrev pub be_u64 : ℕ → List ℕ
be_u64 n = be_u32 (n / 2 ^ 32) ++ be_u32 n

-- `BigEndian::read_u32` and `read_u64`.
abbrev pub read_u32 : ℕ → List ℕ → ℕ
read_u32 i xs =
    get_or xs i 0 * 2 ^ 24
    + get_or xs (i + 1) 0 * 2 ^ 16
    + get_or xs (i + 2) 0 * 2 ^ 8
    + get_or xs (i + 3) 0

abbrev pub read_u64 : ℕ → List ℕ → ℕ
read_u64 i xs = read_u32 i xs * 2 ^ 32 + read_u32 (i + 4) xs

-- The status word `((sw1 as u16) << 8) + sw2 as u16`.
abbrev pub status_word : ℕ → ℕ → ℕ
status_word sw1 sw2 = sw1 * 256 + sw2

-- `for childnum in path { ret.write_u32::<BigEndian>(*childnum) }`
unfoldable pub be_path : List ℕ → List ℕ
be_path [] = []
be_path (n ∷ path) = be_u32 n ++ be_path path

pub length-be_path : (path : List ℕ) → length (be_path path) ≡ 4 * length path
unfolding be_path
length-be_path [] = refl
length-be_path (n ∷ path) = omega (arith, length-be_path path)

pub be_path-IsByte : (path : List ℕ) → All IsByte (be_path path)
unfolding be_path
be_path-IsByte [] = tt
be_path-IsByte (n ∷ path) =
    All-append IsByte (be_u32 n) (be_path path) (omega arith) (be_path-IsByte path)
