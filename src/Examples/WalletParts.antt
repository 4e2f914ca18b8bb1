-- ===== src/Examples/WalletParts.antt =====
-- src/wallet.rs on the hardware dongle, over a device that answers, and a wallet of two entries: one that has received coins, and one
-- that is unused.
use icebox.Prelude.{
  ℕ, suc, ◌+◌, ◌-◌, ◌*◌, ◌%◌, ◌≡◌, refl, ap, ap₂, Bool, true, false, List, [], ◌∷◌, ◌++◌, map,
  length, replicate, arith,
}
use icebox.Outcome.{ok, done, index_range}
use icebox.Signature.{der_of_compact, convert_compact_to_secp}
use icebox.Message.CoinVersions.{Network}
use icebox.Dongle.Trait.{Trait, hardware}
use icebox.Examples.Encoding.{plain}
use icebox.Examples.Ledger.{Queue, ledger, codec, numbers, der, text, key, get_key}
use icebox.Examples.LedgerSigns.{sign, random, network_set}
use icebox.Wallet.Crates.{Crates}
use icebox.Wallet.Entry.{Entry, EntryState}
use icebox.Wallet.Store.{EncryptedWallet, same_bytes}
use icebox.Wallet.Honest.{Keyed, Signing, sealed_block}
use icebox.Wallet.Layout.{Fits}
use icebox.Wallet.RoundTrip.{Readable, signed_bytes}
use icebox.Wallet.Contents.{wallet, Holds}
use icebox.Wallet.Grow.{blank}

-- A cipher that turns over the lowest bit of every byte.
abbrev pub flip : ℕ → ℕ
flip x = x + 1 - 2 * (x % 2)

flip_twice : (x : ℕ) → flip (flip x) ≡ x
flip_twice x = omega arith

pub flip_all : (xs : List ℕ) → map flip (map flip xs) ≡ xs
flip_all [] = refl
flip_all (x ∷ xs) = ap₂ (λ a b. a ∷ b) (flip_twice x) (flip_all xs)

pub length-flip : (xs : List ℕ) → length (map flip xs) ≡ length xs
length-flip [] = refl
length-flip (x ∷ xs) = ap suc (length-flip xs)

abbrev pub lib : Crates ℕ (List ℕ) (List ℕ) (List ℕ)
lib = record {
  aes_ctr = λ k v xs. map flip xs;
  sha256 = λ xs. xs;
  secp = numbers;
  verify = λ hash sig key. true;
  from_utf8 = done;
  from_str = done;
  script_pubkey = λ a. a;
  script_eq = same_bytes;
  empty_script = [];
  txid = λ tx. replicate 32 9;
  format_hash = λ hash. hash ++ hash;
  serialize_key = λ key. key ∷ [];
  sighash_all = 1;
  push_slices = λ a b. a ++ b;
}

-- The hardware dongle on the device of Ledger, with fuel for ten rounds of an exchange.
abbrev pub dongle : Trait Queue ℕ (List ℕ)
dongle = hardware ledger 10 codec numbers plain

-- No report waits in the device.
abbrev pub idle : Queue
idle = []

pub keys :
    (path : List ℕ) (b : Bool) (h : Queue)
    → length path ≡ 5
    → (dongle.get_public_key path b h).0 ≡ ok (key path)
keys [] b h five = absurd (omega arith)
keys (p ∷ []) b h five = absurd (omega arith)
keys (p ∷ p2 ∷ []) b h five = absurd (omega arith)
keys (p ∷ p2 ∷ p3 ∷ []) b h five = absurd (omega arith)
keys (p ∷ p2 ∷ p3 ∷ p4 ∷ []) b h five = absurd (omega arith)
keys (p ∷ p2 ∷ p3 ∷ p4 ∷ p5 ∷ []) b h five = get_key p p2 p3 p4 p5 b h
keys (p ∷ p2 ∷ p3 ∷ p4 ∷ p5 ∷ p6 ∷ rest) b h five = absurd (omega arith)

abbrev pub keyed : Keyed lib dongle
keyed = record {
  key = key;
  iv = λ h. replicate 16 5;
  keys = keys;
  random = random;
  length-iv = λ h. refl;
  networks = network_set;
  length-aes_ctr = λ k v xs. length-flip xs;
  aes_ctr_twice = λ k v xs. flip_all xs;
}

pub is_der : convert_compact_to_secp lib.secp (replicate 64 3) ≡ ok der
unfolding convert_compact_to_secp der_of_compact index_range
is_der = refl

pub signs :
    (message path : List ℕ) (h : Queue)
    → length message ≡ 272
    → length path ≡ 5
    → (dongle.sign_message message path h).0 ≡ ok (replicate 64 3)
signs message [] h size five = absurd (omega arith)
signs message (p ∷ []) h size five = absurd (omega arith)
signs message (p ∷ p2 ∷ []) h size five = absurd (omega arith)
signs message (p ∷ p2 ∷ p3 ∷ []) h size five = absurd (omega arith)
signs message (p ∷ p2 ∷ p3 ∷ p4 ∷ []) h size five = absurd (omega arith)
signs message (p ∷ p2 ∷ p3 ∷ p4 ∷ p5 ∷ []) h size five = sign p p2 p3 p4 p5 message size h
signs message (p ∷ p2 ∷ p3 ∷ p4 ∷ p5 ∷ p6 ∷ rest) h size five = absurd (omega arith)

abbrev pub signing : Signing lib dongle keyed
signing = record {
  signature = λ msg path h. replicate 64 3;
  signs = signs;
  length-signature = λ msg path h. refl;
  secp_form = λ msg path h. der;
  secp_reads = λ msg path h. is_der;
  verifies = λ msg path h size. refl;
  address = text;
  addresses = λ path. refl;
}

abbrev pub entry : Entry (List ℕ)
entry = record {
  state = EntryState.received;
  bip32_path = [];
  spent = false;
  trusted_input = replicate 56 1;
  address = [];
  index = 0;
  txid = replicate 32 9;
  vout = 1;
  amount = 50000;
  date = replicate 24 0x32;
  blockhash = replicate 32 4;
  user = 0x61 ∷ [];
  note = 0x62 ∷ [];
}

pub entry-Fits : Fits entry
entry-Fits = record {
  trusted_input = refl;
  txid = refl;
  vout = omega arith;
  amount = omega arith;
  date = refl;
  blockhash = refl;
  user = omega arith;
  note = omega arith;
}

pub entry-Readable : Readable lib dongle keyed Network.testnet 0 0 signing entry
entry-Readable = record { fits = entry-Fits; dated = refl; user = refl; note = refl }

-- What the wallet holds, and its blocks.
abbrev pub contents : List (List ℕ)
contents = signed_bytes lib dongle keyed Network.testnet 0 0 signing entry idle ∷ blank ∷ []

abbrev pub blocks : List (List ℕ)
blocks =
    sealed_block lib dongle keyed Network.testnet 0 0
      (signed_bytes lib dongle keyed Network.testnet 0 0 signing entry idle) idle
    ∷ sealed_block lib dongle keyed Network.testnet 0 1 blank idle
    ∷ []

abbrev pub small_wallet : EncryptedWallet
small_wallet = wallet lib dongle keyed Network.testnet 0 blocks

pub small_wallet-Holds : Holds lib dongle keyed Network.testnet 0 small_wallet contents
small_wallet-Holds = record {
  blocks = blocks;
  is_wallet = refl;
  whole = (refl, (refl, tt));
  opened = refl;
}
