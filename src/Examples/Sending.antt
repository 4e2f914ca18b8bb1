-- ===== src/Examples/Sending.antt =====
-- The commands with cuts, for a small transaction and a small spend.
use icebox.Prelude.{
  suc, ◌+◌, replicate, ℕ, ◌≡◌, refl, false, true, ltb, List, [], ◌∷◌, ◌++◌, length, All,
  if◌then◌else◌, arith,
}
use icebox.Cutpoints.{
  encode_tx_output, encode_spend_input, encode_tx_input, pop_cut, for_each, cut_loop,
  encode_marking_cutpoints, encode_spend_inputs_with_cutpoints, encode_spend_outputs_with_cutpoints,
  encode_transaction_with_cutpoints,
}
use icebox.Outcome.{checked_sub, ok, diverge, Returns, index, index_range}
use icebox.Constants.{max_apdu_size}
use icebox.Cutpoints.Gaps.{IsCut}
use icebox.Cutpoints.Whole.{concat_map, transaction_bytes, spend_inputs_bytes, spend_outputs_bytes}
use icebox.Packets.{fill_packet, all_sent, next_cut_len, fill_loop, seal}
use icebox.Packets.Fill.{Filled, fill_packet_lem}
use icebox.Packets.Whole.{IsApdu}
use icebox.Command.Transcript.{first_apdus, transcript}
use icebox.Message.Status.{pop}
use icebox.Message.TrustedInput
use icebox.Message.TrustedInput.{GetTrustedInput}
use icebox.Message.TrustedInput.Whole.{get_trusted_input_sends}
use icebox.Message.InputStart
use icebox.Message.InputStart.{UntrustedHashTransactionInputStart}
use icebox.Message.InputStart.Whole.{bare_apdu, input_start_sends, transcript_stalls}
use icebox.Message.InputFinalize
use icebox.Message.InputFinalize.Final.{IsMarked, transcript-IsMarked}
use icebox.Message.InputFinalize.{UntrustedHashTransactionInputFinalize}
use icebox.Message.InputFinalize.Whole.{path_apdu, input_finalize_sends}
use icebox.Dongle.{get_trusted_input}
use icebox.Dongle.Ends.{get_trusted_input-Returns}
use icebox.Examples.Device.{zeros, zeros-ReadsBytes}
use icebox.Examples.Encoding.{plain, plain-u32, tx, spend}

-- The command for the transaction, computed.
abbrev trusted : GetTrustedInput
trusted = record {
  sent_cuts = 0;
  reply = [];
  sw = 0;
  ser_tx = transaction_bytes plain tx;
  cuts = 0 ∷ 4 ∷ 5 ∷ 14 ∷ 18 ∷ 19 ∷ 30 ∷ 41 ∷ 45 ∷ [];
  vout = 1;
}

trusted_made : TrustedInput.new plain tx 1 max_apdu_size ≡ ok trusted
unfolding TrustedInput.new checked_sub encode_transaction_with_cutpoints encode_marking_cutpoints
    pop cut_loop for_each encode_tx_input pop_cut encode_tx_output
trusted_made = refl

get_trusted_input_sends_example :
    (c : GetTrustedInput) × (TrustedInput.new plain tx 1 max_apdu_size ≡ ok c)
    × ((msgs : List (List ℕ)) × (transcript TrustedInput.command (length c.cuts + 3) c ≡ ok msgs)
        × (concat_map TrustedInput.Laws.payload msgs ≡ transaction_bytes plain tx)
        × All IsApdu msgs)
get_trusted_input_sends_example = get_trusted_input_sends plain plain-u32 tx 1 3

get_trusted_input-Returns_example :
    (c : GetTrustedInput) × (TrustedInput.new plain tx 1 max_apdu_size ≡ ok c)
    × Returns (get_trusted_input zeros (suc (length c.cuts + 2)) plain tx 1 tt).0
get_trusted_input-Returns_example =
    get_trusted_input-Returns zeros plain plain-u32 zeros-ReadsBytes tx 1 2 tt

abbrev start : UntrustedHashTransactionInputStart
start = record {
  continuing = false;
  ser_inputs = spend_inputs_bytes plain spend 4;
  cuts = 0 ∷ 4 ∷ 5 ∷ 11 ∷ 15 ∷ [];
  sent_cuts = 0;
  sw = 0;
}

start_made : InputStart.new plain spend 4 false max_apdu_size ≡ ok start
unfolding InputStart.new encode_spend_inputs_with_cutpoints encode_marking_cutpoints pop cut_loop
    for_each encode_spend_input
start_made = refl

start-IsCut : IsCut 254 start.ser_inputs start.cuts
start-IsCut = record {
  rest = 4 ∷ 5 ∷ 11 ∷ 15 ∷ [];
  starts = refl;
  gaps = (
    omega arith,
    omega arith,
    (omega arith, omega arith, (omega arith, omega arith, (omega arith, omega arith, tt))),
  );
  ends = refl;
}

input_start_sends_example :
    (msgs : List (List ℕ)) × (transcript InputStart.command 5 start ≡ ok msgs)
    × (concat_map InputStart.Laws.payload msgs ≡ spend_inputs_bytes plain spend 4)
    × All IsApdu msgs
input_start_sends_example =
    input_start_sends plain spend 4 5 false start start_made start-IsCut (omega arith)

-- The command for an input with a script of more than 260 bytes, after its first APDU.
abbrev long_script : UntrustedHashTransactionInputStart
long_script = record {
  continuing = true;
  ser_inputs = replicate 300 7;
  cuts = 0 ∷ 5 ∷ 265 ∷ 300 ∷ [];
  sent_cuts = 1;
  sw = 0;
}

long_script-IsCut : IsCut 260 long_script.ser_inputs long_script.cuts
long_script-IsCut = record {
  rest = 5 ∷ 265 ∷ 300 ∷ [];
  starts = refl;
  gaps = (omega arith, omega arith, (omega arith, omega arith, (omega arith, omega arith, tt)));
  ends = refl;
}

transcript_stalls_example :
    (transcript InputStart.command 1000 long_script ≡ diverge)
    × (first_apdus InputStart.command 1000 long_script ≡ ok (replicate 1000 (bare_apdu true true)))
transcript_stalls_example =
    transcript_stalls 260 long_script 1000 long_script-IsCut (omega arith) (omega arith)

abbrev finalize : UntrustedHashTransactionInputFinalize
finalize = record {
  need_to_send_change_path = true;
  change_path = 44 ∷ 0 ∷ [];
  ser_outputs = spend_outputs_bytes plain spend;
  cuts = 0 ∷ 1 ∷ 12 ∷ [];
  sent_cuts = 0;
  sw = 0;
}

finalize_made : InputFinalize.new plain spend max_apdu_size ≡ ok finalize
unfolding InputFinalize.new encode_spend_outputs_with_cutpoints encode_marking_cutpoints pop
    cut_loop for_each pop_cut encode_tx_output
finalize_made = refl

finalize-IsCut : IsCut 254 finalize.ser_outputs finalize.cuts
finalize-IsCut = record {
  rest = 1 ∷ 12 ∷ [];
  starts = refl;
  gaps = (omega arith, omega arith, (omega arith, omega arith, tt));
  ends = refl;
}

input_finalize_sends_example :
    (msgs : List (List ℕ)) × (transcript InputFinalize.command 4 finalize
      ≡ ok ((if ltb 0 spend.change_amount then path_apdu spend.change_path ∷ [] else []) ++ msgs))
    × (concat_map InputFinalize.Laws.payload msgs ≡ spend_outputs_bytes plain spend)
    × All IsApdu msgs
input_finalize_sends_example =
    input_finalize_sends plain spend 3 finalize finalize_made finalize-IsCut (omega arith)

fill_packet_example :
    Filled 10 finalize.ser_outputs finalize.cuts 0
      (1 ∷ 2 ∷ [])
      (fill_packet 10 finalize.ser_outputs finalize.cuts 0 (1 ∷ 2 ∷ []))
fill_packet_example =
    fill_packet_lem 254 10 finalize.ser_outputs finalize.cuts finalize-IsCut 0 (1 ∷ 2 ∷ [])
      (omega arith)

-- The same command behind its change path.
abbrev path_sent : UntrustedHashTransactionInputFinalize
path_sent = record finalize { need_to_send_change_path = false }

abbrev last_apdu : List ℕ
last_apdu = 0xe0 ∷ 0x4a ∷ 0x80 ∷ 0x00 ∷ 12 ∷ spend_outputs_bytes plain spend

path_sent-transcript : transcript InputFinalize.command 2 path_sent ≡ ok (last_apdu ∷ [])
unfolding transcript InputFinalize.encode_next InputFinalize.encode_outputs all_sent checked_sub
    fill_packet next_cut_len index fill_loop index_range InputFinalize.mark_final seal
path_sent-transcript = refl

transcript-IsMarked_example : IsMarked (last_apdu ∷ [])
transcript-IsMarked_example =
    transcript-IsMarked 2 path_sent (last_apdu ∷ [])
      (record { path_sent = refl; cut = finalize-IsCut; inside = omega arith }) path_sent-transcript
