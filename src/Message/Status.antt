-- ===== src/Message/Status.antt =====
-- The status word at the end of a reply, as most `decode_reply` of src/dongle/message.rs take it.
use icebox.Prelude.{
  ltb→ge, inr, ge→ltb, inl, Bool-cases, false, lt→ltb, ℕ, suc, ◌<◌, ◌≡◌, refl, Option, none, some,
  List, [], ◌∷◌, ◌++◌, ltb, arith, length, length-append, append_assoc,
}
use icebox.Error.{unexpected_eof}
use icebox.Outcome.{Outcome, ok, err, panic, diverge, Returns, fail_if, ◌>>=◌, ◌>>◌}
use icebox.Bytes.{status_word}

-- `data.pop()`: the last byte, and what stands before it.
unfoldable pub pop : List ℕ → Option (ℕ × List ℕ)
pop [] = none
pop (x ∷ xs) = elim (pop xs) [ none ↦ some (x, []) | some (y, ys) ↦ some (y, x ∷ ys) ]

unfoldable pub unwrap {ℓ} : {A : Type ℓ} → Option A → Outcome A
unwrap none = panic
unwrap (some a) = ok a

-- The length check, the two pops and the status word: `(sw, reply)`.
unfoldable pub take_status : List ℕ → Outcome (ℕ × List ℕ)
unfolding unwrap
take_status bytes = do
  fail_if (ltb (length bytes) 2) unexpected_eof
  (sw2, rest) ← unwrap (pop bytes)
  (sw1, reply) ← unwrap (pop rest)
  ok (status_word sw1 sw2, reply)

pub pop-append : (xs : List ℕ) (y : ℕ) → pop (xs ++ y ∷ []) ≡ some (y, xs)
unfolding pop
pop-append [] y = refl
pop-append (x ∷ xs) y = rw (pop-append xs y)

pub pop-long :
    (xs : List ℕ)
    → 0 < length xs
    → (p : ℕ × List ℕ) × (pop xs ≡ some p) × (length xs ≡ suc (length p.1))
unfolding pop
pop-long [] h = absurd (omega arith)
pop-long (x ∷ []) h = ((x, []), refl, refl)
pop-long (x ∷ y ∷ ys) h =
    let (p, e, l) = pop-long (y ∷ ys) (omega arith) in ((p.0, x ∷ p.1), rw e, omega arith)

-- A reply that ends in the bytes `sw1` and `sw2` has that status word, and the rest is its body.
pub take_status_lem :
    (body : List ℕ) (sw1 sw2 : ℕ)
    → take_status (body ++ sw1 ∷ sw2 ∷ []) ≡ ok (status_word sw1 sw2, body)
unfolding take_status
take_status_lem body sw1 sw2 =
    let long : ltb (length ((body ++ sw1 ∷ []) ++ sw2 ∷ [])) 2 ≡ false =
      ge→ltb _ 2 (
        omega
          (arith, length-append (body ++ sw1 ∷ []) (sw2 ∷ []), length-append body (sw1 ∷ []))) in
    rw (← append_assoc body (sw1 ∷ []) (sw2 ∷ []), long, pop-append, pop-append)

pub take_status-Returns : (bytes : List ℕ) → Returns (take_status bytes)
unfolding take_status
take_status-Returns bytes = elim (Bool-cases (ltb (length bytes) 2)) [
  | inl short ↦ rw short tt
  | inr long ↦
      let (p, e, l) = pop-long bytes (omega (arith, ltb→ge (length bytes) 2 long)) in
      let (q, e', l') = pop-long p.1 (omega (arith, ltb→ge (length bytes) 2 long)) in
      rw (long, e, e') tt
]

-- A reply of fewer than two bytes is an error.
pub take_status_short : (bytes : List ℕ) → length bytes < 2 → take_status bytes ≡ err unexpected_eof
unfolding take_status
take_status_short bytes h = rw (lt→ltb (length bytes) 2 h)

-- `self.reply` and `self.sw` are written after the length check and the pops; an error leaves the
-- command as it was.
unfoldable pub and_store :
    {C : Type 0} → Outcome (ℕ × List ℕ) → (ℕ → List ℕ → C) → C → Outcome (Unit {0}) × C
and_store (ok (sw, reply)) store c = (ok tt, store sw reply)
and_store (err e) store c = (err e, c)
and_store panic store c = (panic, c)
and_store diverge store c = (diverge, c)

pub and_store-Returns :
    {C : Type 0} (o : Outcome (ℕ × List ℕ)) (store : ℕ → List ℕ → C) (c : C)
    → Returns o
    → Returns (and_store o store c).0
unfolding and_store
and_store-Returns (ok x) store c r = tt
and_store-Returns (err e) store c r = tt
and_store-Returns panic store c r = r
and_store-Returns diverge store c r = r

-- What holds of the command before the call, and of every state that is stored, holds after it.
pub and_store_keeps :
    {C : Type 0} (P : C → Type 0) (o : Outcome (ℕ × List ℕ)) (store : ℕ → List ℕ → C) (c : C)
    → P c
    → ((sw : ℕ) (reply : List ℕ) → P (store sw reply))
    → P (and_store o store c).1
unfolding and_store
and_store_keeps P (ok x) store c p q = q x.0 x.1
and_store_keeps P (err e) store c p q = p
and_store_keeps P panic store c p q = p
and_store_keeps P diverge store c p q = p
