-- ===== src/Command/Transcript.antt =====
-- The APDUs that a command sends, one call of `encode_next` after the other. No command looks at
-- the replies when it encodes.
use icebox.Prelude.{ℕ, zero, suc, Option, none, some, List, [], ◌∷◌}
use icebox.Outcome.{Outcome, ok, diverge, ◌>>=◌}
use icebox.Constants.{max_apdu_size}
use icebox.Command.{Command}

module _ {C : Type 0} (cmd : Command C) where
  unfoldable pub transcript_round :
      (C → Outcome (List (List ℕ))) → Option (List ℕ) → C → Outcome (List (List ℕ))
  transcript_round rest none c = ok []
  transcript_round rest (some msg) c = do msgs ← rest c; ok (msg ∷ msgs)

  unfoldable pub transcript : ℕ → C → Outcome (List (List ℕ))
  unfolding transcript_round
  transcript zero c = diverge
  transcript (suc fuel) c = do
    (next, c') ← cmd.encode_next max_apdu_size c
    transcript_round (transcript fuel) next c'

  -- The first `n` APDUs, of a command that sends as many.
  unfoldable pub first_apdus : ℕ → C → Outcome (List (List ℕ))
  unfolding transcript_round
  first_apdus zero c = ok []
  first_apdus (suc n) c = do
    (next, c') ← cmd.encode_next max_apdu_size c
    transcript_round (first_apdus n) next c'
