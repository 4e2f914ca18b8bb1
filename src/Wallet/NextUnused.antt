-- ===== src/Wallet/NextUnused.antt =====
-- src/wallet.rs: `next_unused_index`.
use icebox.Prelude.{
  ℕ, zero, suc, ◌+◌, ◌≡◌, ◌≢◌, refl, ap, sym, ◌∙◌, true, false, Bool, List, [], ◌∷◌, length, All,
  ◌⊎◌, inl, inr, arith, if◌then◌else◌,
}
use icebox.Error.{wallet_full, base58, utf8}
use icebox.Outcome.{Outcome, ok, err, ok_value, chain_elim, from_foreign, index_range}
use icebox.Io.{Io, pure}
use icebox.Message.CoinVersions.{Network}
use icebox.Message.WalletPublicKey.{WalletPublicKey}
use icebox.Dongle.Trait.{Trait}
use icebox.Wallet.Crates.{Crates}
use icebox.Wallet.Entry.{
  Entry, EntryState, all_zero, verified, unused_entry, signed_entry, interpret,
}
use icebox.Wallet.Store.{EncryptedWallet, lookup, next_unused_from, next_unused_index}
use icebox.Wallet.Honest.{Keyed}
use icebox.Wallet.Contents.{Holds}
use icebox.Wallet.Lookup.{Reads, Finds, every-Finds, count_entries}

module _ {PublicKey Signature Script Address : Type 0}
    (lib : Crates PublicKey Signature Script Address) (path : List ℕ) (i : ℕ)
    (key : WalletPublicKey PublicKey) where
  index-unused_entry : (e : Entry Address) → unused_entry lib path i key ≡ ok e → e.index ≡ i
  unfolding unused_entry
  index-unused_entry e h =
      chain_elim (from_foreign base58 (lib.from_str key.b58_address)) _ h
        (λ address e1 is_e. sym (ap (λ t. t.index) (ok_value is_e)))

  index-signed_entry :
      (block : List ℕ) (e : Entry Address) → signed_entry lib path i key block ≡ ok e → e.index ≡ i
  unfolding signed_entry
  index-signed_entry block e h = chain_elim (verified lib path i key block) _ h (λ a1 e1 h1.
      chain_elim (index_range 64 120 block) _ h1 (λ a2 e2 h2.
        chain_elim (index_range 120 152 block) _ h2 (λ a3 e3 h3.
          chain_elim (index_range 164 188 block) _ h3 (λ a4 e4 h4.
            chain_elim (index_range 188 220 block) _ h4 (λ a5 e5 h5.
              chain_elim (from_foreign base58 (lib.from_str key.b58_address)) _ h5 (λ a6 e6 h6.
                chain_elim (index_range 220 252 block) _ h6 (λ a7 e7 h7.
                  chain_elim (from_foreign utf8 (lib.from_utf8 a7)) _ h7 (λ a8 e8 h8.
                    chain_elim (index_range 252 332 block) _ h8 (λ a9 e9 h9.
                      chain_elim (from_foreign utf8 (lib.from_utf8 a9)) _ h9
                        (λ a10 e10 is_e. sym (ap (λ t. t.index) (ok_value is_e))))))))))))

  index_branch :
      (b : Bool) (block : List ℕ) (e : Entry Address)
      → (if b then unused_entry lib path i key else signed_entry lib path i key block) ≡ ok e
      → e.index ≡ i
  index_branch true block e h = index-unused_entry e h
  index_branch false block e h = index-signed_entry block e h

  pub interpret-index :
      (block : List ℕ) (e : Entry Address) → interpret lib path i key block ≡ ok e → e.index ≡ i
  unfolding interpret
  interpret-index block e h =
      chain_elim (index_range 164 188 block) _ h
        (λ date e1 rest. index_branch (all_zero date) block e rest)

-- The first unused entry stands at place `k`.
abbrev pub IsFirstUnused : {Address : Type 0} → ℕ → List (Entry Address) → Type 0
IsFirstUnused k [] = ⊥
IsFirstUnused zero (e ∷ es) = e.state ≡ EntryState.unused
IsFirstUnused (suc k) (e ∷ es) = (e.state ≢ EntryState.unused) × IsFirstUnused k es

abbrev pub IsInUse : {Address : Type 0} → Entry Address → Type 0
IsInUse e = e.state ≢ EntryState.unused

module _ {H PublicKey Signature Script Address : Type 0}
    (lib : Crates PublicKey Signature Script Address) (dongle : Trait H PublicKey Script)
    (keyed : Keyed lib dongle) (network : Network) (account : ℕ) where
  -- The entries from place `i` on have these indices.
  abbrev Indexed : ℕ → List (Entry Address) → Type 0
  Indexed i [] = Unit
  Indexed i (e ∷ es) = (e.index ≡ i) × Indexed (i + 1) es

  Reads-Indexed :
      (i : ℕ) (ps : List (List ℕ)) (es : List (Entry Address))
      → Reads lib dongle keyed network account i ps es
      → Indexed i es
  Reads-Indexed i [] [] r = tt
  Reads-Indexed i [] (e ∷ es) r = absurd r
  Reads-Indexed i (p ∷ ps) [] r = absurd r
  Reads-Indexed i (p ∷ ps) (e ∷ es) r =
      (interpret-index lib _ i _ p e r.0, Reads-Indexed (i + 1) ps es r.1)

  -- What the scan of the entries from place `i` on gives.
  abbrev pub Scans : ℕ → List (Entry Address) → Outcome ℕ → Type 0
  Scans i es result =
      (All IsInUse es × (result ≡ err wallet_full))
      ⊎ ((k : ℕ) × IsFirstUnused k es × (result ≡ ok (i + k)))

  further :
      (i : ℕ) (e : Entry Address) (es : List (Entry Address)) (result : Outcome ℕ)
      → IsInUse e
      → Scans (i + 1) es result
      → Scans i (e ∷ es) result
  further i e es result used (inl (all, full)) = inl ((used, all), full)
  further i e es result used (inr (k, first, found)) =
      inr (suc k, (used, first), found ∙ ap ok (omega arith))

  scan_state :
      (state : EntryState) (w : EncryptedWallet) (i n : ℕ) (e : Entry Address)
      (es : List (Entry Address)) (h : H)
      → e.state ≡ state
      → e.index ≡ i
      → Scans (i + 1) es (next_unused_from lib dongle w (i + 1) n h).0
      → Scans i
          (e ∷ es)
          ((elim state as (λ _. Io H ℕ) [
            | EntryState.unused ↦ pure e.index
            | _ ↦ next_unused_from lib dongle w (i + 1) n
          ])
            h).0
  scan_state EntryState.unused w i n e es h is_state at rest =
      inr (0, is_state, ap ok (at ∙ omega arith))
  scan_state EntryState.valid w i n e es h is_state at rest =
      further i e es _ (λ u. absurd (cc (sym is_state ∙ u))) rest
  scan_state EntryState.received w i n e es h is_state at rest =
      further i e es _ (λ u. absurd (cc (sym is_state ∙ u))) rest
  scan_state EntryState.invalid w i n e es h is_state at rest =
      further i e es _ (λ u. absurd (cc (sym is_state ∙ u))) rest

  next_unused_from-Scans :
      (w : EncryptedWallet) (es : List (Entry Address)) (i : ℕ) (h : H)
      → Finds lib dongle keyed network account w i es
      → Indexed i es
      → Scans i es (next_unused_from lib dongle w i (length es) h).0
  unfolding next_unused_from
  next_unused_from-Scans w [] i h finds indexed = inl (tt, refl)
  next_unused_from-Scans w (e ∷ es) i h finds indexed = rw (finds.0 h) (
      scan_state e.state w i (length es) e es (lookup lib dongle w i h).1 refl indexed.0
        (next_unused_from-Scans w es (i + 1) (lookup lib dongle w i h).1 finds.1 indexed.1))

  -- On an honest dongle, for a wallet whose content is read as the entries `es`: either none of them is
  -- unused and `next_unused_index` fails with `WalletFull`, or it gives a place at which the entry is
  -- unused while all entries before it are in use.
  pub next_unused_index-Scans :
      (w : EncryptedWallet) (contents : List (List ℕ)) (es : List (Entry Address)) (h : H)
      → Holds lib dongle keyed network account w contents
      → Reads lib dongle keyed network account 0 contents es
      → (All IsInUse es × ((next_unused_index lib dongle w h).0 ≡ err wallet_full))
        ⊎ ((k : ℕ) × IsFirstUnused k es × ((next_unused_index lib dongle w h).0 ≡ ok k))
  unfolding next_unused_index
  next_unused_index-Scans w contents es h holds reads =
      let count : length w.entries ≡ length es =
        count_entries lib dongle keyed network account w contents es holds reads in
      let run : (next_unused_from lib dongle w 0 (length w.entries) h).0
          ≡ (next_unused_from lib dongle w 0 (length es) h).0 =
        ap (λ n. (next_unused_from lib dongle w 0 n h).0) count in
      elim (next_unused_from-Scans w es 0 h
        (every-Finds lib dongle keyed network account w contents es holds reads)
        (Reads-Indexed 0 contents es reads)) [
          | inl (all, full) ↦ inl (all, run ∙ full)
          | inr (k, first, found) ↦ inr (k, first, run ∙ found ∙ ap ok (omega arith))
        ]
