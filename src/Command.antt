-- ===== src/Command.antt =====
-- The trait `Command` of src/dongle/message.rs, and `exchange` of src/dongle/ledger.rs.
pub mod Exchange
pub mod Transcript
use icebox.Prelude.{ℕ, zero, suc, ◌+◌, ◌≤◌, ◌<◌, Option, none, some, List, length}
use icebox.Outcome.{Outcome, ok, err, panic, diverge, Returns}
use icebox.Constants.{max_apdu_size}
use icebox.Io.{Io, Hid, pure, lift, ◌>>=◌, ◌>>◌}
use icebox.Transport.Apdu.{write_apdu, read_apdu}

-- `encode_next` gives the next APDU, none at the end, and the new state. `decode_reply` has a state
-- after an error too.
pub record Command (C : Type 0) : Type 0 where
  pub encode_next : ℕ → C → Outcome (Option (List ℕ) × C)
  pub decode_reply : List ℕ → C → Outcome (Unit {0}) × C
  pub into_reply : C → ℕ × List ℕ

module _ {H C : Type 0} (hid : Hid H) (cmd : Command C) where
  -- The rest of a round after `encode_next`, and then the rounds that follow.
  unfoldable pub exchange_round : (C → Io H (ℕ × List ℕ)) → Option (List ℕ) → C → Io H (ℕ × List ℕ)
  exchange_round rest none c = pure (cmd.into_reply c)
  exchange_round rest (some msg) c = do
    write_apdu hid msg
    reply ← read_apdu hid
    lift (cmd.decode_reply reply c).0
    rest (cmd.decode_reply reply c).1

  -- `while let Some(msg) = cmd.encode_next(MAX_APDU_SIZE)`, on fuel.
  unfoldable pub exchange : ℕ → C → Io H (ℕ × List ℕ)
  unfolding exchange_round
  exchange zero c = lift diverge
  exchange (suc fuel) c = do
    (next, c') ← lift (cmd.encode_next max_apdu_size c)
    exchange_round (exchange fuel) next c'
