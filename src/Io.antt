-- ===== src/Io.antt =====
-- Calls that work on the open HID device: state passing around an `Outcome`. The device's state is
-- kept on every path, since what was written stays written.
use icebox.Prelude.{ℕ, ◌≡◌, refl, ap, Option, List}
use icebox.Error.{Error}
use icebox.Outcome.{Foreign, done, failed, from_foreign, Outcome, ok, err, panic, diverge, Returns}

abbrev pub Io : Type 0 → Type 0 → Type 0
Io H A = H → Outcome A × H

abbrev pub pure : {H A : Type 0} → A → Io H A
pure a h = (ok a, h)

abbrev pub lift : {H A : Type 0} → Outcome A → Io H A
lift r h = (r, h)

abbrev pub continue : {H A B : Type 0} → Outcome A → (A → Io H B) → Io H B
continue (ok a) f h = f a h
continue (err e) f h = (err e, h)
continue panic f h = (panic, h)
continue diverge f h = (diverge, h)

infixl 5 ◌>>=◌ ◌>>◌
abbrev pub ◌>>=◌ : {H A B : Type 0} → Io H A → (A → Io H B) → Io H B
◌>>=◌ m f h = continue (m h).0 f (m h).1

abbrev pub ◌>>◌ : {H B : Type 0} → Io H (Unit {0}) → Io H B → Io H B
m >> k = m >>= λ _. k

-- The HID library: `write` sends one report, `read` waits for one report up to a timeout, when it
-- returns none. Both can fail with an error of that library.
pub record Hid (H : Type 0) : Type 0 where
  pub write : List ℕ → H → Foreign (Unit {0}) × H
  pub read : H → Foreign (Option (List ℕ)) × H

-- `?` on a result of the HID library, by `From<hid::Error>`.
abbrev pub from_hid : {A : Type 0} → Foreign A → Outcome A
from_hid = from_foreign Error.hid

-- A chain returns when its first call does, and the rest does on every value of it.
pub continue-Returns :
    {H A B : Type 0} (o : Outcome A) (f : A → Io H B) (h : H)
    → Returns o
    → ((a : A) → o ≡ ok a → Returns (f a h).0)
    → Returns (continue o f h).0
continue-Returns (ok a) f h r k = k a refl
continue-Returns (err e) f h r k = tt
continue-Returns panic f h r k = r
continue-Returns diverge f h r k = r

pub from_hid-Returns : {A : Type 0} (r : Foreign A) → Returns (from_hid r)
from_hid-Returns (done a) = tt
from_hid-Returns (failed e) = tt

pub from_hid_ok : {A : Type 0} (r : Foreign A) (a : A) → from_hid r ≡ ok a → r ≡ done a
from_hid_ok (done b) a e = cc
from_hid_ok (failed n) a e = cc

-- Inversion of a successful chain: its first call gave a value, and the rest succeeds on it.
pub continue_elim {ℓ} :
    {H A B : Type 0} {P : Type ℓ} (o : Outcome A) (f : A → Io H B) (h : H) {b : B} {h' : H}
    → continue o f h ≡ (ok b, h')
    → ((a : A) → o ≡ ok a → f a h ≡ (ok b, h') → P)
    → P
continue_elim (ok a) f h e k = k a refl e
continue_elim (err x) f h e k = absurd (cc (ap (λ t. t.0) e))
continue_elim panic f h e k = absurd (cc (ap (λ t. t.0) e))
continue_elim diverge f h e k = absurd (cc (ap (λ t. t.0) e))
