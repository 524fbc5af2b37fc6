-- ===== src/Tests.antt =====
-- Concrete inputs on which the theorems apply. The children hold one example per theorem.
pub mod Positions
pub mod Lifecycle
pub mod Instructions
pub mod Transactions
pub mod Pairs
pub mod PairCreation
pub mod Prices
pub mod Numbers
pub mod Swaps
pub mod CompositionFees
pub mod Rpc
pub mod Scanner
pub mod Queues
use saros_dlmm_indexer.Base.{ℕ, Option, none, some, List, [], ◌∷◌, false, ◌≡◌, refl}
use saros_dlmm_indexer.Text.{Text, codes}
use saros_dlmm_indexer.Schemas.{
  instruction_key, bin_key, position_key, share_key, update_event_key, token_account_key, pair_key,
  bin_step_config_key, quote_asset_key, token_mint_key, swap_event_key, bin_swap_event_key,
  composition_fees_event_key, ParsedInstructionMessage, Pair, Position,
}
use saros_dlmm_indexer.Store.Listed.{listed, find_one}
use saros_dlmm_indexer.Store.World.{Db, World}
use saros_dlmm_indexer.Instruction.{ProcessorName, id_of}
use saros_dlmm_indexer.Instruction.Dedup.{recorded}

unfoldable pub sample_db : Db
sample_db = record {
  instructions = listed instruction_key;
  bins = listed bin_key;
  positions = listed position_key;
  shares = listed share_key;
  update_events = listed update_event_key;
  token_accounts = listed token_account_key;
  pairs = listed pair_key;
  configs = listed bin_step_config_key;
  quote_assets = listed quote_asset_key;
  token_mints = listed token_mint_key;
  swap_events = listed swap_event_key;
  bin_swap_events = listed bin_swap_event_key;
  composition_fees_events = listed composition_fees_event_key;
}

abbrev pub sample_pair : Pair
sample_pair = record {
  id = codes "A";
  bin_step = 1;
  active_id = 8;
  liquidity_book_config = codes "C";
  bin_step_config_id = codes "D";
  token_mint_x_id = codes "X";
  token_mint_y_id = codes "Y";
  quote_asset_id = codes "Q";
  name = codes "N";
  symbol = codes "S";
  base_factor = 1;
  filter_period = 1;
  decay_period = 1;
  reduction_factor = 1;
  variable_fee_control = 1;
  max_volatility_accumulator = 1;
  protocol_share = 1;
  volatility_accumulator = 1;
  volatility_reference = 1;
  id_reference = 1;
  time_last_updated = 1;
  protocol_fees_x = codes "0";
  protocol_fees_y = codes "0";
  reserve_x = codes "100";
  reserve_y = codes "200";
}

abbrev pub sample_position : Position
sample_position = record {
  id = codes "P";
  pair_id = codes "A";
  position_mint_id = codes "M";
  owner_id = codes "O";
  lower_bin_lb_id = 8;
  upper_bin_lb_id = 71;
}

-- A pair with one bin, a position in it from bin 8 on, and the position's share of bin 8.
unfoldable pub sample_world : World sample_db
unfolding sample_db listed
sample_world = record {
  instructions = [];
  bins =
      record {
        id = codes "A-8";
        lb_bin_id = 8;
        bin_array_id = codes "B";
        pair_id = codes "A";
        bin_array_index = 0;
        total_supply = codes "10";
        reserve_x = codes "20";
        reserve_y = codes "30";
      }
      ∷ [];
  positions = sample_position ∷ [];
  shares =
      record { id = codes "P-0"; position_id = codes "P"; index = 0; balance = codes "4" } ∷ [];
  update_events = [];
  token_accounts = [];
  pairs = sample_pair ∷ [];
  configs = [];
  quote_assets = [];
  token_mints = [];
  swap_events = [];
  bin_swap_events = [];
  composition_fees_events = [];
}

abbrev pub sample_job : ParsedInstructionMessage
sample_job = record {
  block_number = 5;
  signature = codes "T";
  instruction = record {
    program_id = codes "L";
    accounts = codes "A" ∷ codes "P" ∷ codes "M" ∷ codes "K" ∷ [];
    data_base58 = codes "Z";
  };
  instruction_index = 2;
  inner_instruction_index = none;
  is_inner = false;
  block_time = some 1;
}

pub nothing_recorded :
    (p : ProcessorName) → recorded sample_db (id_of sample_job p) sample_world ≡ none
unfolding sample_db sample_world listed find_one
nothing_recorded p = refl
