-- ===== src/Outcome.antt =====
-- How a call of a Rust function ends. `ok` and `err` are the two cases of `Result<A, Error>`;
-- `panic` stands for a failed assertion, `unreachable!`, an index out of bounds and an arithmetic
-- overflow (as in a build with overflow checks); `diverge` says that the fuel of a loop ran out.
use icebox.Prelude.{
  ℕ, zero, suc, ◌-◌, ◌≤◌, ◌<◌, ◌≡◌, refl, Bool, true, false, ◌&&◌, none, some, List, [], ◌∷◌, leb,
  arith, length, get_elem?, get_or, slice, if◌then◌else◌,
}
use icebox.Error.{Error}

pub data Outcome {ℓ} (A : Type ℓ) : Type ℓ where
  ok : A → Outcome A
  err : Error → Outcome A
  panic diverge : Outcome A

infixl 5 ◌>>=◌ ◌>>◌
abbrev pub ◌>>=◌ {ℓ κ} : {A : Type ℓ} {B : Type κ} → Outcome A → (A → Outcome B) → Outcome B
ok a >>= f = f a
err e >>= f = err e
panic >>= f = panic
diverge >>= f = diverge

abbrev pub ◌>>◌ {ℓ} : {B : Type ℓ} → Outcome (Unit {0}) → Outcome B → Outcome B
m >> k = m >>= λ _. k

-- `assert!(b)`
abbrev pub assert : Bool → Outcome (Unit {0})
assert true = ok tt
assert false = panic

-- `if b { return Err(e) }`
abbrev pub fail_if : Bool → Error → Outcome (Unit {0})
fail_if true e = err e
fail_if false e = ok tt

-- What a function of another crate returns: a value, or an error of that crate.
pub data Foreign (A : Type 0) : Type 0 where
  done : A → Foreign A
  failed : ℕ → Foreign A

-- `?` on such a result, by the `From` of that crate's error.
abbrev pub from_foreign : {A : Type 0} → (ℕ → Error) → Foreign A → Outcome A
from_foreign wrap (done a) = ok a
from_foreign wrap (failed e) = err (wrap e)

-- `a - b` on usize.
unfoldable pub checked_sub : ℕ → ℕ → Outcome ℕ
checked_sub a b = if leb b a then ok (a - b) else panic

-- `xs[i]`
unfoldable pub index {ℓ} : {A : Type ℓ} → List A → ℕ → Outcome A
index xs i = elim (get_elem? xs i) [ none ↦ panic | some x ↦ ok x ]

-- `&xs[a..b]`
unfoldable pub index_range {ℓ} : {A : Type ℓ} → ℕ → ℕ → List A → Outcome (List A)
index_range a b xs = if leb a b && leb b (length xs) then ok (slice a b xs) else panic

pub checked_sub_ok : (a b : ℕ) → b ≤ a → checked_sub a b ≡ ok (a - b)
unfolding checked_sub
checked_sub_ok a b h = ground arith

pub index_ok {ℓ} :
    {A : Type ℓ} (xs : List A) (i : ℕ) (d : A) → i < length xs → index xs i ≡ ok (get_or xs i d)
unfolding index
index_ok [] i d h = absurd (omega arith)
index_ok (x ∷ xs) zero d h = refl
index_ok (x ∷ xs) (suc i) d h = index_ok xs i d (omega arith)

pub index_range_ok {ℓ} :
    {A : Type ℓ} (a b : ℕ) (xs : List A)
    → a ≤ b
    → b ≤ length xs
    → index_range a b xs ≡ ok (slice a b xs)
unfolding index_range
index_range_ok a b xs h k =
    let inside : (leb a b && leb b (length xs)) ≡ true = ground arith in rw inside

-- The call came back with a value or an `Error`.
abbrev pub Returns {ℓ} : {A : Type ℓ} → Outcome A → Type 0
Returns (ok a) = Unit
Returns (err e) = Unit
Returns panic = ⊥
Returns diverge = ⊥

pub ok_value : {A : Type 0} {a b : A} → ok a ≡ ok b → a ≡ b
ok_value e = cc

-- A chain returns when its first call does, and the rest does on every value of it.
pub >>=-Returns {ℓ κ} :
    {A : Type ℓ} {B : Type κ} (o : Outcome A) (f : A → Outcome B)
    → Returns o
    → ((a : A) → o ≡ ok a → Returns (f a))
    → Returns (o >>= f)
>>=-Returns (ok a) f r k = k a refl
>>=-Returns (err e) f r k = tt
>>=-Returns panic f r k = r
>>=-Returns diverge f r k = r

pub fail_if-Returns {ℓ} :
    {A : Type ℓ} (b : Bool) (e : Error) (m : Outcome A)
    → (b ≡ false → Returns m)
    → Returns (fail_if b e >> m)
fail_if-Returns true e m k = tt
fail_if-Returns false e m k = k refl

pub from_foreign-Returns :
    {A : Type 0} (wrap : ℕ → Error) (r : Foreign A) → Returns (from_foreign wrap r)
from_foreign-Returns wrap (done a) = tt
from_foreign-Returns wrap (failed e) = tt

-- A chain that gave a value: so did its first call, and the rest on it.
pub chain_elim {ℓ κ σ} :
    {A : Type ℓ} {B : Type κ} {P : Type σ} (o : Outcome A) (f : A → Outcome B) {b : B}
    → (o >>= f) ≡ ok b
    → ((a : A) → o ≡ ok a → f a ≡ ok b → P)
    → P
chain_elim (ok a) f e k = k a refl e
chain_elim (err x) f e k = absurd (cc e)
chain_elim panic f e k = absurd (cc e)
chain_elim diverge f e k = absurd (cc e)
