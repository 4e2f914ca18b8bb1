-- ===== src/Dongle/Ends.antt =====
-- Asking for a trusted input, on any device.
use icebox.Prelude.{◌+◌, ℕ, ◌≡◌, not, ◌==◌, true, false, Bool-cases, inl, inr, length, arith}
use icebox.Dongle.{suc, Bool, when_ok, get_trusted_input}
use icebox.Error.{Error, response_wrong_length}
use icebox.Constants.{max_apdu_size, sw_ok, ins_get_trusted_input}
use icebox.Outcome.{Outcome, ok, Returns, fail_if}
use icebox.Io.{Hid, continue-Returns}
use icebox.Transport.Delivery.{ReadsBytes}
use icebox.Bitcoin.{Transaction, Consensus}
use icebox.Command.{exchange}
use icebox.Command.Exchange.{exchange-Returns}
use icebox.Packets.Whole.{left, CutCommand-Progresses}
use icebox.Message.TrustedInput
use icebox.Message.TrustedInput.{GetTrustedInput}
use icebox.Message.TrustedInput.Laws.{IsReady, cut_command}
use icebox.Message.TrustedInput.Whole.{new_lem}

when_ok-Returns : {A : Type 0} (sw : ℕ) (r : Outcome A) → Returns r → Returns (when_ok sw r)
unfolding when_ok
when_ok-Returns sw r k = elim (Bool-cases (sw == sw_ok)) [ inl e ↦ rw e k | inr e ↦ rw e tt ]

fail_if-Returns : (b : Bool) (e : Error) → Returns (fail_if b e)
fail_if-Returns true e = tt
fail_if-Returns false e = tt

module _ {H : Type 0} (hid : Hid H) {Script : Type 0} (consensus : Consensus Script)
    (u32 : (n : ℕ) → length (consensus.encode_u32 n) ≡ 4) where
  -- For every transaction and output index, where the encoding of a u32 has four bytes, and on every
  -- device that hands out bytes: `new` succeeds, and with a round of fuel more than the command has
  -- cuts, `get_trusted_input` ends with the trusted input or an error, neither in a panic nor in an
  -- endless loop.
  pub get_trusted_input-Returns :
      ReadsBytes hid
      → (tx : Transaction Script) (vout extra : ℕ) (h : H)
      → (c : GetTrustedInput) × (TrustedInput.new consensus tx vout max_apdu_size ≡ ok c)
        × Returns (get_trusted_input hid (suc (length c.cuts + extra)) consensus tx vout h).0
  unfolding get_trusted_input cut_command
  get_trusted_input-Returns bytes tx vout extra h =
      let x = new_lem consensus u32 tx vout in
      let c : GetTrustedInput = x.command in
      let fuel : ℕ = suc (length c.cuts + extra) in
      (
        c,
        x.made,
        rw x.made (
            continue-Returns (exchange hid TrustedInput.command fuel c h).0 _ _
              (exchange-Returns hid TrustedInput.command IsReady (left cut_command) bytes
                (CutCommand-Progresses cut_command) fuel c h x.ready (omega arith))
              λ y _.
                continue-Returns
                  (fail_if (not (length y.1 == 56))
                    (response_wrong_length ins_get_trusted_input (length y.1)))
                  _ _ (fail_if-Returns _ _) λ z _. when_ok-Returns y.0 (ok y.1) tt),
      )
