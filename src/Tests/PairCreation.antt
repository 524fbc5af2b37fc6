-- ===== src/Tests/PairCreation.antt =====
-- Examples for the processor that creates pairs.
use saros_dlmm_indexer.Base.{◌≡◌, ◌⊎◌, [], ◌∷◌, none, some}
use saros_dlmm_indexer.Text.{Text, codes}
use saros_dlmm_indexer.Schemas.{BinStepConfig, active, open_to_all}
use saros_dlmm_indexer.Store.Listed.{listed}
use saros_dlmm_indexer.Store.World.{World, Error, ok, err, rpc_failed}
use saros_dlmm_indexer.Pairs.Create.{InitializePairDecoded, process_initialize_pair}
use saros_dlmm_indexer.Pairs.Create.Mints.{Chain, TokenInfo, parsed}
use saros_dlmm_indexer.Pairs.Create.Outcome.{process_initialize_pair_once}
use saros_dlmm_indexer.Tests.{sample_db, sample_world}

abbrev sample_chain : Chain
sample_chain = record {
  get_parsed_account_info = λ id. ok (some (parsed (some (codes "1000")) (some 6)));
  find_by_mint = λ id. err rpc_failed;
  get_metadata_account = λ id. ok none;
}

abbrev sample_info : TokenInfo
sample_info = record { supply = some (codes "1000"); decimals = some 6 }

abbrev sample_config : BinStepConfig
sample_config = record {
  id = codes "D";
  liquidity_book_config = codes "C";
  status = active;
  availability = open_to_all;
  bin_step = 1;
  base_factor = 9;
  filter_period = 9;
  decay_period = 9;
  reduction_factor = 9;
  variable_fee_control = 9;
  max_volatility_accumulator = 9;
  protocol_share = 9;
}

abbrev sample_pair : InitializePairDecoded
sample_pair = record {
  active_id = 8388608;
  liquidity_book_config = codes "C";
  token_mint_x = codes "X";
  token_mint_y = codes "Y";
  bin_step_config = codes "D";
  quote_asset_badge = codes "Q";
  pair = codes "new";
}

abbrev config_world : World sample_db
unfolding sample_db listed
config_world = record sample_world { configs = sample_config ∷ [] }

process_initialize_pair_once_example :
    let r = process_initialize_pair sample_chain sample_pair config_world in
    ((x : Error) × (r.0 ≡ err x) × (r.1.pairs ≡ config_world.pairs))
    ⊎ ((r.0 ≡ ok tt)
        × ((later : Chain) → process_initialize_pair later sample_pair r.1 ≡ (ok tt, r.1)))
process_initialize_pair_once_example =
    process_initialize_pair_once sample_chain sample_pair config_world
