-- ===== src/Wallet/Balance.antt =====
-- src/wallet.rs: `get_balance` and `next_unused_index`.
use icebox.Prelude.{
  ℕ, ◌+◌, ◌^◌, ◌<◌, ◌≡◌, ap, ◌∙◌, ltb, lt→ltb, ge→ltb, Bool-cases, ltb→lt, ltb→ge, inl, inr, List,
  [], ◌∷◌, length, arith, if◌then◌else◌,
}
use icebox.Outcome.{Outcome, ok, panic}
use icebox.Message.CoinVersions.{Network}
use icebox.Dongle.Trait.{Trait}
use icebox.Wallet.Crates.{Crates}
use icebox.Wallet.Entry.{Entry}
use icebox.Wallet.Store.{EncryptedWallet, lookup, balance_from, get_balance}
use icebox.Wallet.Honest.{Keyed}
use icebox.Wallet.Contents.{Holds}
use icebox.Wallet.Lookup.{Reads, Finds, every-Finds, count_entries}

-- The amounts of the entries that are not marked as spent.
abbrev pub unspent : {Address : Type 0} → List (Entry Address) → ℕ
unspent [] = 0
unspent (e ∷ es) = (if e.spent then 0 else e.amount) + unspent es

abbrev u64_or_panic : ℕ → Outcome ℕ
u64_or_panic n = if ltb n (2 ^ 64) then ok n else panic

module _ {H PublicKey Signature Script Address : Type 0}
    (lib : Crates PublicKey Signature Script Address) (dongle : Trait H PublicKey Script)
    (keyed : Keyed lib dongle) (network : Network) (account : ℕ) where
  balance_from_lem :
      (w : EncryptedWallet) (es : List (Entry Address)) (i b : ℕ) (h : H)
      → b < 2 ^ 64
      → Finds lib dongle keyed network account w i es
      → (balance_from lib dongle w i (length es) b h).0 ≡ u64_or_panic (b + unspent es)
  unfolding balance_from
  balance_from_lem w [] i b h small finds =
      let e : b + 0 ≡ b = omega arith in rw (e, lt→ltb b (2 ^ 64) small)
  balance_from_lem w (x ∷ es) i b h small finds =
      let a : ℕ = x.amount in
      let h2 : H = (lookup lib dongle w i h).1 in
      let total : b + (a + unspent es) ≡ b + a + unspent es = omega arith in
      let same : b + (0 + unspent es) ≡ b + unspent es = omega arith in
      elim (Bool-cases x.spent) [
        | inl e ↦ rw (finds.0 h, e, same) (balance_from_lem w es (i + 1) b h2 small finds.1)
        | inr e ↦ elim (Bool-cases (ltb (b + a) (2 ^ 64))) [
          | inl fits ↦
              rw (finds.0 h, e, total, fits)
                (balance_from_lem w es (i + 1) (b + a) h2 (ltb→lt (b + a) (2 ^ 64) fits) finds.1)
          | inr over ↦ rw (
            finds.0 h,
            e,
            total,
            over,
            ge→ltb (b + a + unspent es) (2 ^ 64) (omega (arith, ltb→ge (b + a) (2 ^ 64) over)),
          )
        ]
      ]

  -- On an honest dongle, for a wallet whose content is read as the entries `es`: `get_balance` gives
  -- the sum of the amounts of those that are not marked as spent, and panics where it does not fit in
  -- a u64.
  pub get_balance_lem :
      (w : EncryptedWallet) (contents : List (List ℕ)) (es : List (Entry Address)) (h : H)
      → Holds lib dongle keyed network account w contents
      → Reads lib dongle keyed network account 0 contents es
      → (get_balance lib dongle w h).0
        ≡ (if ltb (unspent es) (2 ^ 64) then ok (unspent es) else panic)
  unfolding get_balance
  get_balance_lem w contents es h holds reads =
      let zero_add : 0 + unspent es ≡ unspent es = omega arith in
      ap (λ n. (balance_from lib dongle w 0 n 0 h).0)
        (count_entries lib dongle keyed network account w contents es holds reads)
      ∙ balance_from_lem w es 0 0 h (omega arith)
          (every-Finds lib dongle keyed network account w contents es holds reads)
      ∙ ap u64_or_panic zero_add
