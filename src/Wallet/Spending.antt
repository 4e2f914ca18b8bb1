-- ===== src/Wallet/Spending.antt =====
-- src/wallet.rs: `get_inputs_and_change` as a whole.
use icebox.Prelude.{
  ℕ, ◌+◌, ◌≡◌, refl, ap, sym, subst, ◌∙◌, Bool, true, false, List, [], ◌∷◌, ◌++◌, append-nil,
  append_assoc, length, All, arith,
}
use icebox.Outcome.{ok, ok_value}
use icebox.Io.{Io, pure, continue_elim}
use icebox.Wallet.Path.{KeyPurpose, bip32_path}
use icebox.Wallet.Cipher.{as_u32}
use icebox.Spend.{Spend}
use icebox.Message.CoinVersions.{Network}
use icebox.Dongle.Trait.{Trait}
use icebox.Wallet.Crates.{Crates}
use icebox.Wallet.Entry.{Entry}
use icebox.Wallet.Store.{EncryptedWallet, lookup}
use icebox.Wallet.Pick.{Found, base_size, pick, sum_outputs, finish, enough}
use icebox.Wallet.Coins.{coins_from, get_inputs_and_change}
use icebox.Wallet.Honest.{Keyed}
use icebox.Wallet.Contents.{Holds}
use icebox.Wallet.Lookup.{Reads, Finds, every-Finds, count_entries}
use icebox.Wallet.Settle.{Settled, sum_outputs_ok, finish_lem}
use icebox.Wallet.Conserve.{Progress, IsUsable, only, pick-Step}

-- The elements at the places that a mask marks.
abbrev pub select : {A : Type 0} → List Bool → List A → List A
select [] xs = []
select (b ∷ mask) [] = []
select (true ∷ mask) (x ∷ xs) = x ∷ select mask xs
select (false ∷ mask) (x ∷ xs) = select mask xs

module _ {H PublicKey Signature Script Address : Type 0}
    (lib : Crates PublicKey Signature Script Address) (dongle : Trait H PublicKey Script)
    (keyed : Keyed lib dongle) (network : Network) (account : ℕ) (start : Spend Script) where
  -- Some of the entries `es` were taken besides `used`.
  abbrev Moved : List (Entry Address) → List (Entry Address) → Found → Spend Script → Type 0
  Moved used es found spend =
      (mask : List Bool) × Progress lib start (used ++ select mask es) found spend

  none-Moved :
      (used es : List (Entry Address)) (found : Found) (spend : Spend Script)
      → Progress lib start used found spend
      → Moved used es found spend
  none-Moved used es found spend progress =
      ([], subst (λ t. Progress lib start t found spend) (sym (append-nil used)) progress)

  one-Moved :
      (b : Bool) (used es : List (Entry Address)) (x : Entry Address) (found : Found)
      (spend : Spend Script)
      → Moved (used ++ only b x) es found spend
      → Moved used (x ∷ es) found spend
  one-Moved true used es x found spend (mask, progress) = (
    true ∷ mask,
    subst (λ t. Progress lib start t found spend) (append_assoc used (x ∷ []) (select mask es))
        progress,
  )
  one-Moved false used es x found spend (mask, progress) = (
    false ∷ mask,
    subst (λ t. Progress lib start (t ++ select mask es) found spend) (append-nil used) progress,
  )

  stopped :
      (used es : List (Entry Address)) (found found2 : Found) (spend spend2 : Spend Script)
      (h h2 : H)
      → Progress lib start used found spend
      → pure {H = Spend Script × H} found (spend, h) ≡ (ok found2, (spend2, h2))
      → Moved used es found2 spend2
  stopped used es found found2 spend spend2 h h2 progress e =
      let is_found : found ≡ found2 = ok_value (ap (λ t. t.0) e) in
      let is_spend : spend ≡ spend2 = ap (λ t. t.1.0) e in
      none-Moved used es found2 spend2 (
        subst (λ t. Progress lib start used t spend2) is_found
          (subst (Progress lib start used found) is_spend progress))

  -- The loop over `es` keeps the accounts.
  abbrev Loop : List (Entry Address) → Type 0
  Loop es =
      (w : EncryptedWallet) (i rate total : ℕ) (used : List (Entry Address)) (found found2 : Found)
      (spend spend2 : Spend Script) (h h2 : H)
      → Finds lib dongle keyed network account w i es
      → Progress lib start used found spend
      → coins_from lib dongle w rate total i (length es) found (spend, h)
        ≡ (ok found2, (spend2, h2))
      → Moved used es found2 spend2

  after_quit :
      (q : Bool) (es : List (Entry Address)) (w : EncryptedWallet) (i rate total : ℕ)
      (used : List (Entry Address)) (found found2 : Found) (spend spend2 : Spend Script) (h h2 : H)
      → Loop es
      → Finds lib dongle keyed network account w i es
      → Progress lib start used found spend
      → (elim q as (λ _. Io (Spend Script × H) Found) [
        | true ↦ pure found
        | false ↦ coins_from lib dongle w rate total i (length es) found
      ])
          (spend, h)
        ≡ (ok found2, (spend2, h2))
      → Moved used es found2 spend2
  after_quit true es w i rate total used found found2 spend spend2 h h2 loop finds progress e =
      stopped used es found found2 spend spend2 h h2 progress e
  after_quit false es w i rate total used found found2 spend spend2 h h2 loop finds progress e =
      loop w i rate total used found found2 spend spend2 h h2 finds progress e

  coins_from_lem : (es : List (Entry Address)) → Loop es
  unfolding coins_from
  coins_from_lem [] w i rate total used found found2 spend spend2 h h2 finds progress e =
      stopped used [] found found2 spend spend2 h h2 progress e
  coins_from_lem (x ∷ es) w i rate total used found found2 spend spend2 h h2 finds progress e =
      let path : List ℕ = bip32_path w.network w.account KeyPurpose.address (as_u32 i) in
      let h1 : H = (lookup lib dongle w i h).1 in
      continue_elim (lookup lib dongle w i h).0 _ _ e (λ entry is_entry e1.
        continue_elim (pick lib rate total path entry found spend) _ _ e1 (λ r is_r e2.
          continue_elim (enough rate total r.0) _ _ e2 (λ quit is_quit e3.
            let is_x : x ≡ entry = ok_value (sym (finds.0 h) ∙ is_entry) in
            let (b, moved) =
              pick-Step lib start rate total path used entry found spend r progress is_r in
            one-Moved b used es x found2 spend2 (
              after_quit quit es w (i + 1) rate total (used ++ only b x) r.0 found2 r.1 spend2 h1 h2
                (coins_from_lem es) finds.1
                (subst (λ t. Progress lib start (used ++ only b t) r.0 r.1) (sym is_x) moved) e3))))

  begun :
      Progress lib start []
        (record { found_amount = 0; found_change = false; size_bytes = base_size start })
        start
  begun = record {
    inputs = sym (append-nil start.input);
    amount = refl;
    size = omega arith;
    outputs = refl;
    usable = tt;
  }

  whole :
      (w : EncryptedWallet) (es : List (Entry Address)) (rate : ℕ) (res : Spend Script) (h h2 : H)
      → length w.entries ≡ length es
      → Finds lib dongle keyed network account w 0 es
      → get_inputs_and_change lib dongle w rate (start, h) ≡ (ok tt, (res, h2))
      → (mask : List Bool) × All IsUsable (select mask es)
        × Settled lib start rate (select mask es) res
  unfolding get_inputs_and_change
  whole w es rate res h h2 count finds e =
      let initial : Found = record {
        found_amount = 0;
        found_change = false;
        size_bytes = base_size start;
      } in
      continue_elim (sum_outputs 0 start.output) _ _ e (λ total is_total e1.
        let loop = coins_from lib dongle w rate total 0 (length w.entries) initial (start, h) in
        continue_elim loop.0 _ _ e1 (λ found is_found e2.
          let run : coins_from lib dongle w rate total 0 (length es) initial (start, h)
              ≡ (ok found, loop.1) =
            ap (λ n. coins_from lib dongle w rate total 0 n initial (start, h)) (sym count)
            ∙ ap (λ t. (t, loop.1)) is_found in
          let (mask, progress) =
            coins_from_lem es w 0 rate total [] initial found start loop.1.0 h loop.1.1 finds begun
              run in
          let last : finish rate total found loop.1.0 ≡ (ok tt, res) = ap (λ t. (t.0, t.1.0)) e2 in
          (
            mask,
            progress.usable,
            finish_lem lib start rate total (select mask es) found loop.1.0 res
                (sum_outputs_ok start.output 0 total is_total ∙ omega arith) progress last,
          )))

  -- On an honest dongle, for a wallet whose content is read as the entries `es`, when
  -- `get_inputs_and_change` succeeds: the inputs that it adds are those of a choice of entries of `es`,
  -- each once and in order, all of them received and not marked as spent; the outputs are those
  -- given, and at most one more for the change; and the amounts of the inputs are the values of the
  -- outputs and the fee for the size of this transaction, and without change less than 10000 more.
  pub get_inputs_and_change_lem :
      (w : EncryptedWallet) (contents : List (List ℕ)) (es : List (Entry Address)) (rate : ℕ)
      (h : H)
      → Holds lib dongle keyed network account w contents
      → Reads lib dongle keyed network account 0 contents es
      → (get_inputs_and_change lib dongle w rate (start, h)).0 ≡ ok tt
      → (mask : List Bool) × All IsUsable (select mask es)
        × Settled lib start rate
            (select mask es)
            (get_inputs_and_change lib dongle w rate (start, h)).1.0
  get_inputs_and_change_lem w contents es rate h holds reads e =
      let res : Spend Script = (get_inputs_and_change lib dongle w rate (start, h)).1.0 in
      let h2 : H = (get_inputs_and_change lib dongle w rate (start, h)).1.1 in
      whole w es rate res h h2
        (count_entries lib dongle keyed network account w contents es holds reads)
        (every-Finds lib dongle keyed network account w contents es holds reads)
        (ap (λ t. (t, (res, h2))) e)
