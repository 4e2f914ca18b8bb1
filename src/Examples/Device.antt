-- ===== src/Examples/Device.antt =====
-- Two devices and two messages for the runs.
use icebox.Prelude.{replicate, ℕ, Option, none, some, List, [], ◌∷◌, ◌++◌, arith}
use icebox.Outcome.{Foreign, done}
use icebox.Io.{Hid}
use icebox.Transport.Delivery.{ReadsBytes}

-- A device with the reports written to it and those it will hand out.
abbrev pub Desk : Type 0
Desk = List (List ℕ) × List (List ℕ)

unfoldable pub read_desk : Desk → Foreign (Option (List ℕ)) × Desk
read_desk (written, []) = (done none, (written, []))
read_desk (written, f ∷ fs) = (done (some f), (written, fs))

abbrev pub desk : Hid Desk
desk = record { write = λ f d. (done tt, (d.0 ++ f ∷ [], d.1)); read = read_desk }

abbrev pub hello : List ℕ
hello = 0xe0 ∷ 0xc4 ∷ 0 ∷ 0 ∷ 0 ∷ []

abbrev pub long_reply : List ℕ
long_reply =
    1 ∷ 2 ∷ 3 ∷ 4 ∷ 5 ∷ 6 ∷ 7 ∷ 8 ∷ 9 ∷ 10 ∷ 11 ∷ 12 ∷ 13 ∷ 14 ∷ 15 ∷ 16 ∷ 17 ∷ 18 ∷ 19 ∷ 20 ∷ 21
    ∷ 22 ∷ 23 ∷ 24 ∷ 25 ∷ 26 ∷ 27 ∷ 28 ∷ 29 ∷ 30 ∷ 1 ∷ 2 ∷ 3 ∷ 4 ∷ 5 ∷ 6 ∷ 7 ∷ 8 ∷ 9 ∷ 10 ∷ 11 ∷ 12
    ∷ 13 ∷ 14 ∷ 15 ∷ 16 ∷ 17 ∷ 18 ∷ 19 ∷ 20 ∷ 21 ∷ 22 ∷ 23 ∷ 24 ∷ 25 ∷ 26 ∷ 27 ∷ 28 ∷ 0x90 ∷ 0x00
    ∷ []

-- A device that takes everything and hands out reports of zeros.
abbrev pub zeros : Hid (Unit {0})
zeros = record { write = λ f d. (done tt, d); read = λ d. (done (some (replicate 64 0)), d) }

pub zeros-ReadsBytes : ReadsBytes zeros
zeros-ReadsBytes h bytes e = ground arith
