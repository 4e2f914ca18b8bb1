-- ===== src/Cutpoints/Whole.antt =====
-- The three encoders: they succeed, write the serialisation, and cut it in order.
use icebox.Prelude.{
  get_or, ◌≤◌, append_assoc, length-append, ℕ, ◌%◌, ◌<◌, ◌≡◌, refl, sym, ◌∙◌, true, List, [], ◌∷◌,
  ◌++◌, append-nil, length, arith, ◌==◌, if◌then◌else◌,
}
use icebox.Cutpoints.Gaps.{
  Cut-IsCut, IsCut, Cut, Ended, Marks, mark-Marks, mark_pop-Marks, Marks-bind,
}
use icebox.Cutpoints.First.{Opens, opens}
use icebox.Outcome.{Outcome, ok, err, panic, diverge, ◌>>=◌}
use icebox.Bitcoin.{TxIn, TxOut, Transaction, Consensus}
use icebox.Spend.{Input, Spend}
use icebox.Cutpoints.{
  Encoding, start, encode_marking_cutpoints, pop_cut, for_each, encode_tx_input, encode_tx_output,
  push_trusted_input, encode_transaction_with_cutpoints, encode_spend_input,
  encode_spend_inputs_with_cutpoints, encode_spend_outputs_with_cutpoints,
}

bind_assoc :
    {A B C : Type 0} (m : Outcome A) (f : A → Outcome B) (g : B → Outcome C)
    → (m >>= f >>= g) ≡ (m >>= λ a. f a >>= g)
bind_assoc (ok a) f g = refl
bind_assoc (err e) f g = refl
bind_assoc panic f g = refl
bind_assoc diverge f g = refl

module _ (m : ℕ) (pos : 0 < m) where
  -- A primitive without a cut behind it, and then the rest.
  joined :
      (b1 : List ℕ) {b2 : List ℕ} (s : Encoding) (f : Encoding → Outcome Encoding)
      → Cut m s
      → ((t : Encoding) → Cut m t → Marks m true b2 t (f t))
      → Marks m true (b1 ++ b2) s (encode_marking_cutpoints b1 m s >>= λ t. pop_cut t >>= f)
  joined b1 {b2} s f c k =
      let x = Marks-bind {f = f} (mark_pop-Marks m b1 s pos c) (λ t ct _. k t ct) in
      record {
        after = x.after;
        succeeds = sym (bind_assoc (encode_marking_cutpoints b1 m s) pop_cut f) ∙ x.succeeds;
        cut = x.cut;
        ended = x.ended;
        writes = x.writes;
        extends = x.extends;
      }

  marked :
      (b1 : List ℕ) {b2 : List ℕ} (s : Encoding) (f : Encoding → Outcome Encoding)
      → Cut m s
      → ((t : Encoding) → Cut m t → Ended t → Marks m true b2 t (f t))
      → Marks m true (b1 ++ b2) s (encode_marking_cutpoints b1 m s >>= f)
  marked b1 s f c k = Marks-bind (mark-Marks m b1 s pos c) (λ t ct et. k t ct (et refl))

-- The encodings of all elements in order.
abbrev pub concat_map : {A : Type 0} → (A → List ℕ) → List A → List ℕ
concat_map f [] = []
concat_map f (x ∷ xs) = f x ++ concat_map f xs

for_each-Marks :
    {A : Type 0} (m : ℕ) (body : A → Encoding → Outcome Encoding) (bytes : A → List ℕ)
    → ((x : A) (t : Encoding) → Cut m t → Marks m true (bytes x) t (body x t))
    → (xs : List A) (s : Encoding) → Cut m s
    → Ended s
    → Marks m true (concat_map bytes xs) s (for_each body xs s)
unfolding for_each
for_each-Marks m body bytes k [] s c e = record {
  after = s;
  succeeds = refl;
  cut = c;
  ended = λ _. e;
  writes = sym (append-nil s.buf);
  extends = ([], sym (append-nil s.cuts));
}
for_each-Marks m body bytes k (x ∷ xs) s c e =
    Marks-bind (k x s c) (λ t ct et. for_each-Marks m body bytes k xs t ct (et refl))

Cut-start : (m : ℕ) → Cut m start
Cut-start m = record { rest = []; starts = refl; gaps = tt; inside = omega arith }

-- An encoder ends with these bytes and with cuts from 0 to their length, in order and with gaps of
-- at most `m`.
abbrev pub Yields : ℕ → List ℕ → Outcome Encoding → Type 0
Yields m bytes o = (e : Encoding) × (o ≡ ok e) × (e.buf ≡ bytes) × IsCut m e.buf e.cuts

yields :
    (m : ℕ) (bytes : List ℕ) (o : Outcome Encoding) → Marks m true bytes start o → Yields m bytes o
yields m bytes o x = (x.after, x.succeeds, x.writes, Cut-IsCut m x.after x.cut (x.ended refl))

module _ {Script : Type 0} (consensus : Consensus Script) where
  open consensus use {
    encode_u32, encode_u64, encode_var_int, encode_txid, encode_script, empty_script,
  }

  -- The serialisation of a transaction without witnesses.
  abbrev pub tx_input_bytes : TxIn Script → List ℕ
  tx_input_bytes i =
      encode_txid i.previous_output.txid
      ++ (encode_u32 i.previous_output.vout
          ++ (encode_script i.script_sig ++ encode_u32 i.sequence))

  abbrev pub tx_output_bytes : TxOut Script → List ℕ
  tx_output_bytes o = encode_u64 o.value ++ encode_script o.script_pubkey

  abbrev transaction_rest : Transaction Script → List ℕ
  transaction_rest tx =
      encode_var_int (length tx.input)
      ++ (concat_map tx_input_bytes tx.input
          ++ (encode_var_int (length tx.output)
              ++ (concat_map tx_output_bytes tx.output ++ encode_u32 tx.lock_time)))

  abbrev pub transaction_bytes : Transaction Script → List ℕ
  transaction_bytes tx = encode_u32 tx.version ++ transaction_rest tx

  -- What goes to the dongle of a spend: the version, and for each input its trusted input, with the
  -- script only at the input that is signed.
  abbrev pub spend_input_bytes : ℕ → Input Script → List ℕ
  spend_input_bytes index i =
      (0x01 ∷ (length i.trusted_input % 256) ∷ i.trusted_input)
      ++ (encode_script (if i.index == index then i.script_pubkey else empty_script)
          ++ encode_u32 i.txin.sequence)

  abbrev pub spend_inputs_bytes : Spend Script → ℕ → List ℕ
  spend_inputs_bytes spend index =
      encode_u32 1
      ++ (encode_var_int (length spend.input) ++ concat_map (spend_input_bytes index) spend.input)

  abbrev pub spend_outputs_bytes : Spend Script → List ℕ
  spend_outputs_bytes spend =
      encode_var_int (length spend.output) ++ concat_map tx_output_bytes spend.output

  module _ (m : ℕ) (pos : 0 < m) where
    tx_input-Marks :
        (i : TxIn Script) (s : Encoding)
        → Cut m s
        → Marks m true (tx_input_bytes i) s (encode_tx_input consensus m i s)
    unfolding encode_tx_input
    tx_input-Marks i s c = joined m pos _ s _ c λ t ct.
        joined m pos _ t _ ct λ u cu. marked m pos _ u _ cu λ v cv _. mark-Marks m _ v pos cv

    tx_output-Marks :
        (o : TxOut Script) (s : Encoding)
        → Cut m s
        → Marks m true (tx_output_bytes o) s (encode_tx_output consensus m o s)
    unfolding encode_tx_output
    tx_output-Marks o s c = joined m pos _ s _ c λ t ct. mark-Marks m _ t pos ct

    transaction-Opens :
        (tx : Transaction Script)
        → Opens m
            (encode_u32 tx.version)
            (transaction_rest tx)
            (encode_transaction_with_cutpoints consensus m tx)
    unfolding encode_transaction_with_cutpoints
    transaction-Opens tx = opens m pos _ _ (Cut-start m) λ s cs _. marked m pos _ s _ cs λ t ct et.
        Marks-bind (for_each-Marks m _ tx_input_bytes tx_input-Marks tx.input t ct et) λ u cu _.
          marked m pos _ u _ cu λ v cv ev.
            Marks-bind (for_each-Marks m _ tx_output_bytes tx_output-Marks tx.output v cv ev)
              λ w cw _. mark-Marks m _ w pos cw

    spend_input-Marks :
        (index : ℕ) (i : Input Script) (s : Encoding)
        → Cut m s
        → Marks m true (spend_input_bytes index i) s (encode_spend_input consensus m index i s)
    unfolding encode_spend_input
    spend_input-Marks index i s c =
        let t = i.trusted_input in
        let pushed : Encoding = push_trusted_input t s in
        let cp : Cut m pushed = record {
          rest = c.rest;
          starts = c.starts;
          gaps = c.gaps;
          inside = omega (arith, c.inside, length-append s.buf (0x01 ∷ (length t % 256) ∷ t));
        } in
        let script : List ℕ =
          encode_script (if i.index == index then i.script_pubkey else empty_script) in
        let sequence : List ℕ = encode_u32 i.txin.sequence in
        let x : Marks m true (script ++ sequence) pushed
            (encode_spend_input consensus m index i s) =
          marked m pos script pushed _ cp λ u cu _. mark-Marks m sequence u pos cu in
        record {
          after = x.after;
          succeeds = x.succeeds;
          cut = x.cut;
          ended = x.ended;
          writes = x.writes ∙ append_assoc s.buf (0x01 ∷ (length t % 256) ∷ t) (script ++ sequence);
          extends = x.extends;
        }

    spend_inputs-Marks :
        (spend : Spend Script) (index : ℕ)
        → Marks m true
            (spend_inputs_bytes spend index)
            start
            (encode_spend_inputs_with_cutpoints consensus m spend index)
    unfolding encode_spend_inputs_with_cutpoints
    spend_inputs-Marks spend index = marked m pos _ start _ (Cut-start m) λ s cs _.
        marked m pos _ s _ cs λ t ct et.
          for_each-Marks m _ (spend_input_bytes index) (spend_input-Marks index) spend.input t ct et

    spend_outputs-Marks :
        (spend : Spend Script)
        → Marks m true
            (spend_outputs_bytes spend)
            start
            (encode_spend_outputs_with_cutpoints consensus m spend)
    unfolding encode_spend_outputs_with_cutpoints
    spend_outputs-Marks spend =
        marked m pos _ start _ (Cut-start m)
          λ s cs es. for_each-Marks m _ tx_output_bytes tx_output-Marks spend.output s cs es

    -- For every transaction and every size limit above 0, the encoder succeeds: it writes the
    -- serialisation without witnesses, and its cuts go in order from 0 to the length, at most the
    -- limit apart.
    pub encode_transaction_lem :
        (tx : Transaction Script)
        → Yields m (transaction_bytes tx) (encode_transaction_with_cutpoints consensus m tx)
    encode_transaction_lem tx = yields m _ _ (transaction-Opens tx).marks

    -- The first cut behind 0 is at the end of the version.
    pub transaction_first :
        (tx : Transaction Script) (e : Encoding)
        → encode_transaction_with_cutpoints consensus m tx ≡ ok e
        → length (encode_u32 tx.version) ≤ m
        → get_or e.cuts 1 0 ≡ length (encode_u32 tx.version)
    transaction_first tx = (transaction-Opens tx).first

    -- For every spend, index and size limit above 0, the encoder of the inputs succeeds: it
    -- writes version 1, the number of inputs, and for each input its trusted input, a script, and
    -- its sequence, where the script is that of the output spent at the input with the index and
    -- empty at the others. The cuts go in order from 0 to the length, at most the limit apart.
    pub encode_spend_inputs_lem :
        (spend : Spend Script) (index : ℕ)
        → Yields m
            (spend_inputs_bytes spend index)
            (encode_spend_inputs_with_cutpoints consensus m spend index)
    encode_spend_inputs_lem spend index = yields m _ _ (spend_inputs-Marks spend index)

    -- For every spend and every size limit above 0, the encoder of the outputs succeeds: it
    -- writes their number and each output, and its cuts go in order from 0 to the length, at most
    -- the limit apart.
    pub encode_spend_outputs_lem :
        (spend : Spend Script)
        → Yields m
            (spend_outputs_bytes spend)
            (encode_spend_outputs_with_cutpoints consensus m spend)
    encode_spend_outputs_lem spend = yields m _ _ (spend_outputs-Marks spend)
