-- ===== src/Tests/Swaps.antt =====
-- Examples for the processor of swaps, and for the decimals of its amounts.

use saros_dlmm_indexer.Base.{
  ℕ, ◌*◌, ◌^◌, ◌≡◌, refl, true, Option, none, some, List, [], ◌∷◌, arith, if◌then◌else◌,
}
use saros_dlmm_indexer.Base.Int.{pos, ◌+ℤ◌, ◌-ℤ◌, ◌*ℤ◌, quot, neg}
use saros_dlmm_indexer.Text.{Text, codes, eq_text}
use saros_dlmm_indexer.Text.Decimal.{
  digits, nat_to_text, int_to_text, read_int, read_nat, read_digits, is_digit, negative,
}
use saros_dlmm_indexer.Schemas.{Bin, TokenMint, exact_input, ParsedInstructionMessage}
use saros_dlmm_indexer.Store.Listed.{listed, find_one}
use saros_dlmm_indexer.Store.World.{World, ok}
use saros_dlmm_indexer.Library.{decode_instruction, find_instruction, find_index, get_account}
use saros_dlmm_indexer.Instruction.{swap, id_of}
use saros_dlmm_indexer.Instruction.Dedup.{Recorded, recorded}
use saros_dlmm_indexer.Positions.Update.{bin_id}
use saros_dlmm_indexer.Prices.Decimals.{normalize_amount}
use saros_dlmm_indexer.Prices.Decimals.RoundTrip.{read_decimal, read_decimal-normalize_amount}
use saros_dlmm_indexer.Prices.Floats.{multiply}
use saros_dlmm_indexer.Swaps.{SwapArgs, SwapDecoded, BinSwapEventDecoded, get_swap_event_id}
use saros_dlmm_indexer.Swaps.Amounts.{Valued, SwapAmounts, calculate_swap_amounts}
use saros_dlmm_indexer.Swaps.Instruction.{
  new_swap_event, vaults_of_decoded, decode_swap_instruction, process_swap_instruction,
}
use saros_dlmm_indexer.Swaps.Instruction.Idle.{process_swap_instruction_idle}
use saros_dlmm_indexer.Swaps.Instruction.Stored.{process_swap_instruction_stores}
use saros_dlmm_indexer.Swaps.BinEvent.{
  unit_price, vaults_of_event, new_bin_swap_event, process_decoded,
}
use saros_dlmm_indexer.Swaps.BinEvent.Stored.{Fits, moved, process_decoded_stores}
use saros_dlmm_indexer.Tests.{sample_db, sample_world, sample_job, sample_pair}
use saros_dlmm_indexer.Tests.Numbers.{whole_numbers, whole_numbers-IsDouble}

-- 1.25 tokens of six decimals.
normalized : normalize_amount 1250000 6 ≡ codes "1.25"
unfolding normalize_amount digits nat_to_text
normalized = refl

read_decimal-normalize_amount_example :
    (v : ℕ) × (k : ℕ) × (read_decimal 0 (normalize_amount 1250000 6) ≡ some (v, k))
    × (v * 10 ^ 6 ≡ 1250000 * 10 ^ k)
read_decimal-normalize_amount_example = read_decimal-normalize_amount 1250000 6 (omega arith)

abbrev no_data : Text → Option (List ℕ)
no_data t = none

abbrev no_args : Text → Option (Option SwapArgs)
no_args t = none

process_swap_instruction_idle_example :
    (process_swap_instruction {db = sample_db} no_data no_args sample_job
      sample_world).1.bin_swap_events
    ≡ sample_world.bin_swap_events
process_swap_instruction_idle_example =
    process_swap_instruction_idle no_data no_args sample_job sample_world

-- A swap instruction and its nine accounts behind the ones that are not read.
abbrev swap_job : ParsedInstructionMessage
swap_job = record sample_job {
  instruction = record {
    program_id = codes "L";
    accounts =
        codes "A"
        ∷ codes "X"
        ∷ codes "Y"
        ∷ codes "a0"
        ∷ codes "a1"
        ∷ codes "vx"
        ∷ codes "vy"
        ∷ codes "ux"
        ∷ codes "uy"
        ∷ [];
    data_base58 = codes "Z";
  };
}

abbrev swap_bytes : Text → Option (List ℕ)
swap_bytes t = some (248 ∷ 198 ∷ 158 ∷ 145 ∷ 225 ∷ 117 ∷ 135 ∷ 200 ∷ [])

abbrev swap_args : Text → Option (Option SwapArgs)
swap_args t = some (
    some (record {
      amount = 5;
      other_amount_threshold = 3;
      swap_for_y = true;
      swap_type = codes "ExactInput";
    }))

abbrev sample_swap : SwapDecoded
sample_swap = record {
  amount = 5;
  other_amount_threshold = 3;
  swap_for_y = true;
  swap_type = exact_input;
  pair = codes "A";
  token_mint_x = codes "X";
  token_mint_y = codes "Y";
  bin_array_lower = codes "a0";
  bin_array_upper = codes "a1";
  token_vault_x = codes "vx";
  token_vault_y = codes "vy";
  user_vault_x = codes "ux";
  user_vault_y = codes "uy";
}

swap_decodes : decode_swap_instruction swap_bytes swap_args swap_job.instruction ≡ some sample_swap
unfolding decode_swap_instruction decode_instruction find_instruction find_index get_account eq_text
swap_decodes = refl

swap_is_fresh :
    sample_db.swap_events.find_one (new_swap_event swap_job sample_swap).id sample_world.swap_events
    ≡ none
unfolding sample_db sample_world listed find_one
swap_is_fresh = refl

swap_is_new : recorded sample_db (id_of swap_job swap) sample_world ≡ none
unfolding sample_db sample_world listed find_one
swap_is_new = refl

process_swap_instruction_stores_example :
    (s : sample_db.instructions.State) × (t : sample_db.swap_events.State)
    × (process_swap_instruction swap_bytes swap_args swap_job sample_world
        ≡ (ok tt, record sample_world { instructions = s; swap_events = t }))
    × Recorded sample_db swap_job swap sample_world s
    × ((j : Text)
        → sample_db.swap_events.find_one j t ≡ (
            if eq_text (new_swap_event swap_job sample_swap).id j
            then some (new_swap_event swap_job sample_swap)
            else sample_db.swap_events.find_one j sample_world.swap_events))
    × (swap_job.inner_instruction_index ≡ none
        → vaults_of_event true (
            sample_db.swap_events.find_one
              (get_swap_event_id swap_job.block_number swap_job.signature swap_job.instruction_index
                none)
              t)
          ≡ vaults_of_decoded sample_swap)
process_swap_instruction_stores_example =
    process_swap_instruction_stores swap_job swap_bytes swap_args sample_swap sample_world
      swap_is_new swap_decodes swap_is_fresh

abbrev pub sample_mint : Text → TokenMint
sample_mint id = record {
  id = id;
  supply = codes "9";
  decimals = 0;
  name = codes "N";
  symbol = codes "S";
}

unfoldable pub trade_world : World sample_db
unfolding sample_db sample_world listed
trade_world = record sample_world {
  token_mints = sample_mint (codes "X") ∷ sample_mint (codes "Y") ∷ [];
}

-- Five of X go in, one of them as a protocol fee, and three of Y go out.
abbrev sample_event : BinSwapEventDecoded
sample_event = record {
  pair = codes "A";
  swap_for_y = true;
  protocol_fee = 1;
  bin_id = 8;
  amount_in = 5;
  amount_out = 3;
  volatility_accumulator = 0;
  fee = 1;
}

abbrev sample_bin : Bin
sample_bin = record {
  id = codes "A-8";
  lb_bin_id = 8;
  bin_array_id = codes "B";
  pair_id = codes "A";
  bin_array_index = 0;
  total_supply = codes "10";
  reserve_x = codes "20";
  reserve_y = codes "30";
}

abbrev pub worth : Text → Valued
worth t = record { normalized = t; usd = t; native = t }

abbrev sample_amounts : SwapAmounts
sample_amounts = record {
  amount_in = worth (codes "5");
  amount_out = worth (codes "3");
  fee = worth (codes "1");
  protocol_fee = worth (codes "1");
}

amounts_calculated :
    calculate_swap_amounts whole_numbers sample_event
      (sample_mint (codes "X"))
      (sample_mint (codes "Y"))
      unit_price
      unit_price
    ≡ some sample_amounts
unfolding calculate_swap_amounts normalize_amount multiply whole_numbers digits nat_to_text
    int_to_text read_int read_nat read_digits is_digit negative quot ◌*ℤ◌
amounts_calculated = refl

sample-Fits : Fits sample_event sample_bin (pos 20) (pos 30)
unfolding int_to_text nat_to_text digits ◌+ℤ◌ ◌-ℤ◌ neg
sample-Fits = record {
  reserve_x = refl;
  reserve_y = refl;
  amount_in = omega arith;
  protocol_fee = omega arith;
  kept_fits = omega arith;
  paid_fits = omega arith;
  x_fits = omega arith;
  y_fits = omega arith;
  new_x_fits = omega arith;
  new_y_fits = omega arith;
}

pub pair_found : sample_db.pairs.find_one (codes "A") trade_world.pairs ≡ some sample_pair
unfolding sample_db trade_world sample_world listed find_one eq_text
pair_found = refl

bin_found : sample_db.bins.find_one (bin_id (codes "A") 8) trade_world.bins ≡ some sample_bin
unfolding sample_db trade_world sample_world listed find_one eq_text bin_id nat_to_text digits
bin_found = refl

pub mint_found_x :
    sample_db.token_mints.find_one (codes "X") trade_world.token_mints
    ≡ some (sample_mint (codes "X"))
unfolding sample_db trade_world sample_world listed find_one eq_text
mint_found_x = refl

pub mint_found_y :
    sample_db.token_mints.find_one (codes "Y") trade_world.token_mints
    ≡ some (sample_mint (codes "Y"))
unfolding sample_db trade_world sample_world listed find_one eq_text
mint_found_y = refl

event_is_fresh :
    (k : Text) → sample_db.bin_swap_events.find_one k trade_world.bin_swap_events ≡ none
unfolding sample_db trade_world sample_world listed find_one
event_is_fresh k = refl

process_decoded_stores_example :
    let swap_event =
      sample_db.swap_events.find_one
        (get_swap_event_id sample_job.block_number sample_job.signature sample_job.instruction_index
          none)
        trade_world.swap_events in
    let event =
      new_bin_swap_event sample_job sample_event
        (vaults_of_event true swap_event)
        sample_amounts
        7 in
    (s : sample_db.bin_swap_events.State) × (t : sample_db.bins.State) × (process_decoded
        whole_numbers sample_job 7 sample_event trade_world
      ≡ (ok tt, record trade_world { bins = t; bin_swap_events = s }))
    × ((j : Text)
        → sample_db.bins.find_one j t ≡ (
            if eq_text (bin_id (codes "A") 8) j
            then some (moved whole_numbers-IsDouble sample_event (pos 20) (pos 30) sample_bin)
            else sample_db.bins.find_one j trade_world.bins))
    × ((j : Text)
        → sample_db.bin_swap_events.find_one j s ≡ (
            if eq_text event.id j
            then some event
            else sample_db.bin_swap_events.find_one j trade_world.bin_swap_events))
process_decoded_stores_example =
    process_decoded_stores whole_numbers-IsDouble sample_event sample_job 7 sample_pair
      (sample_mint (codes "X")) (sample_mint (codes "Y")) sample_amounts trade_world pair_found
      bin_found sample-Fits (omega arith) (omega arith) mint_found_x mint_found_y amounts_calculated
      (event_is_fresh _)
