-- ===== src/Wallet/Layout.antt =====
-- src/wallet.rs: the table of the fields of an entry, against the bytes that `sign_and_encrypt`
-- writes.
use icebox.Prelude.{
  ℕ, ◌+◌, ◌-◌, ◌^◌, ◌≤◌, ◌<◌, ◌≡◌, refl, ap, sym, ◌∙◌, List, [], ◌∷◌, ◌++◌, append-nil,
  append_assoc, length, length-append, length-replicate, replicate, join, arith, if◌then◌else◌,
}
use icebox.Outcome.{ok}
use icebox.Bytes.{be_u32, be_u64}
use icebox.Signature.{copy_into}
use icebox.Signature.Compact.{copy_into_lem, replicate_add}
use icebox.Wallet.Entry.{Entry, encode_entry}

-- Padded with zeros behind.
abbrev pub pad : ℕ → List ℕ → List ℕ
pad n xs = xs ++ replicate (n - length xs) 0

abbrev pub fields : {Address : Type 0} → Entry Address → List (List ℕ)
fields entry =
    entry.trusted_input
    ∷ entry.txid
    ∷ be_u32 entry.vout
    ∷ be_u64 entry.amount
    ∷ entry.date
    ∷ entry.blockhash
    ∷ pad 32 entry.user
    ∷ pad 80 entry.note
    ∷ be_u32 (if entry.spent then 1 else 0)
    ∷ []

-- The types of the fields in the source, and the limits on the two texts.
pub record Fits {Address : Type 0} (entry : Entry Address) : Type 0 where
  pub trusted_input : length entry.trusted_input ≡ 56
  pub txid : length entry.txid ≡ 32
  pub vout : entry.vout < 2 ^ 32
  pub amount : entry.amount < 2 ^ 64
  pub date : length entry.date ≡ 24
  pub blockhash : length entry.blockhash ≡ 32
  pub user : length entry.user ≤ 32
  pub note : length entry.note ≤ 80

pub length-pad : (n : ℕ) (xs : List ℕ) → length xs ≤ n → length (pad n xs) ≡ n
length-pad n xs h = omega (
  arith,
  length-append xs (replicate (n - length xs) 0),
  length-replicate {A = ℕ} (n - length xs) 0,
)

-- The next field is written into the zeros behind `xs`, past `gap` of them.
fill :
    (gap a b r r' : ℕ) (xs bytes : List ℕ)
    → length xs + gap ≡ a
    → a + length bytes ≡ b
    → r ≡ gap + (length bytes + r')
    → copy_into a b bytes (xs ++ replicate r 0)
      ≡ ok ((xs ++ (replicate gap 0 ++ bytes)) ++ replicate r' 0)
fill gap a b r r' xs bytes ha hb hr =
    let n : ℕ = length bytes in
    let zg : List ℕ = replicate gap 0 in
    let zr : List ℕ = replicate r' 0 in
    let zeros : xs ++ replicate r 0 ≡ (xs ++ zg) ++ (replicate n 0 ++ zr) =
      ap (λ t. xs ++ t)
        (ap (λ t. replicate t 0) hr
          ∙ replicate_add gap (n + r') 0
          ∙ ap (λ t. zg ++ t) (replicate_add n r' 0))
      ∙ sym (append_assoc xs zg (replicate n 0 ++ zr)) in
    ap (copy_into a b bytes) zeros
    ∙ copy_into_lem a b (xs ++ zg) (replicate n 0) zr bytes
        (omega (arith, length-append xs zg, length-replicate {A = ℕ} gap 0))
        (omega (arith, length-replicate {A = ℕ} n 0)) (length-replicate {A = ℕ} n 0)
    ∙ ap ok (sym (append_assoc (xs ++ zg) bytes zr) ∙ ap (λ t. t ++ zr) (append_assoc xs zg bytes))

regroup :
    (s t x v m d b u zu n zn f : List ℕ)
    → (((((((((s ++ t) ++ x) ++ v) ++ m) ++ d) ++ b) ++ u) ++ (zu ++ n)) ++ (zn ++ f)) ++ []
      ≡ s ++ join (t ∷ x ∷ v ∷ m ∷ d ∷ b ∷ (u ++ zu) ∷ (n ++ zn) ∷ f ∷ [])
regroup s t x v m d b u zu n zn f = simp (append_assoc, append-nil)

-- For an entry whose fields have their sizes: the bytes that are written before it is signed are 64
-- zeros and the fields in the order of the table, the texts padded with zeros.
pub encode_entry_lem :
    {Address : Type 0} (entry : Entry Address)
    → Fits entry
    → encode_entry entry ≡ ok (replicate 64 0 ++ join (fields entry))
unfolding encode_entry
encode_entry_lem entry fits =
    let ti : List ℕ = entry.trusted_input in
    let user : List ℕ = entry.user in
    let note : List ℕ = entry.note in
    let gu : ℕ = 32 - length user in
    let gn : ℕ = 80 - length note in
    let flag : List ℕ = be_u32 (if entry.spent then 1 else 0) in
    let x1 : List ℕ = replicate 64 0 ++ ti in
    let x2 : List ℕ = x1 ++ entry.txid in
    let x3 : List ℕ = x2 ++ be_u32 entry.vout in
    let x4 : List ℕ = x3 ++ be_u64 entry.amount in
    let x5 : List ℕ = x4 ++ entry.date in
    let x6 : List ℕ = x5 ++ entry.blockhash in
    let x7 : List ℕ = x6 ++ user in
    let x8 : List ℕ = x7 ++ (replicate gu 0 ++ note) in
    let x9 : List ℕ = x8 ++ (replicate gn 0 ++ flag) in
    let l1 : length x1 ≡ 120 =
      omega (arith, fits.trusted_input, length-append (replicate 64 0) ti) in
    let l2 : length x2 ≡ 152 = omega (arith, l1, fits.txid, length-append x1 entry.txid) in
    let l3 : length x3 ≡ 156 = omega (arith, l2, length-append x2 (be_u32 entry.vout)) in
    let l4 : length x4 ≡ 164 = omega (arith, l3, length-append x3 (be_u64 entry.amount)) in
    let l5 : length x5 ≡ 188 = omega (arith, l4, fits.date, length-append x4 entry.date) in
    let l6 : length x6 ≡ 220 =
      omega (arith, l5, fits.blockhash, length-append x5 entry.blockhash) in
    let l7 : length x7 ≡ 220 + length user = omega (arith, l6, length-append x6 user) in
    let l8 : length x8 ≡ 252 + length note = omega (
      arith,
      l7,
      fits.user,
      length-append x7 (replicate gu 0 ++ note),
      length-append (replicate gu 0) note,
      length-replicate {A = ℕ} gu 0,
    ) in
    rw
      (
        fill 64 64 120 336 216 [] ti refl (omega (arith, fits.trusted_input))
            (omega (arith, fits.trusted_input)),
        fill 0 120 152 216 184 x1 entry.txid (omega (arith, l1)) (omega (arith, fits.txid))
            (omega (arith, fits.txid)),
        fill 0 152 156 184 180 x2 (be_u32 entry.vout) (omega (arith, l2)) refl refl,
        fill 0 156 164 180 172 x3 (be_u64 entry.amount) (omega (arith, l3)) refl refl,
        fill 0 164 188 172 148 x4 entry.date (omega (arith, l4)) (omega (arith, fits.date))
            (omega (arith, fits.date)),
        fill 0 188 220 148 116 x5 entry.blockhash (omega (arith, l5))
            (omega (arith, fits.blockhash)) (omega (arith, fits.blockhash)),
        fill 0 220 (220 + length user) 116 (116 - length user) x6 user (omega (arith, l6)) refl
            (omega (arith, fits.user)),
        fill gu 252 (252 + length note) (116 - length user) (4 + gn) x7 note
            (omega (arith, l7, fits.user)) refl (omega (arith, fits.user, fits.note)),
        fill gn 332 336 (4 + gn) 0 x8 flag (omega (arith, l8, fits.note)) refl (omega arith),
      )
      (ap ok (
        regroup (replicate 64 0) ti entry.txid (be_u32 entry.vout) (be_u64 entry.amount) entry.date
          entry.blockhash user (replicate gu 0) note (replicate gn 0) flag))
