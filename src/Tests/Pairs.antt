-- ===== src/Tests/Pairs.antt =====
-- Examples for the processors of bin arrays, fee configurations and quote assets.

use saros_dlmm_indexer.Base.{ℕ, ◌≡◌, ◌<◌, ◌/◌, refl, [], ◌∷◌, none, some, if◌then◌else◌}
use saros_dlmm_indexer.Text.{Text, codes, eq_text}
use saros_dlmm_indexer.Schemas.{QuoteAsset, enabled, other, open_to_all}
use saros_dlmm_indexer.Store.Batch.{FreshFrom, Added}
use saros_dlmm_indexer.Store.Listed.{listed, find_one}
use saros_dlmm_indexer.Store.World.{World, ok}
use saros_dlmm_indexer.Instruction.{id_of, quote_asset, update_pair_static_fee_parameters}
use saros_dlmm_indexer.Instruction.Dedup.{recorded, Recorded}
use saros_dlmm_indexer.Positions.Update.{bin_id}
use saros_dlmm_indexer.Pairs.{StaticFeeParameters}
use saros_dlmm_indexer.Pairs.BinArray.{
  InitializeBinArrayDecoded, bin_array_size, new_bin, process_initialize_bin_array,
}
use saros_dlmm_indexer.Pairs.BinArray.Bins.{process_initialize_bin_array_creates}
use saros_dlmm_indexer.Pairs.StepConfig.{
  InitializeBinStepConfigDecoded, new_config, process_initialize_bin_step_config,
}
use saros_dlmm_indexer.Pairs.StepConfig.Stored.{or_new, process_initialize_bin_step_config_lem}
use saros_dlmm_indexer.Pairs.Fees.{UpdatePairStaticFeeParametersDecoded}
use saros_dlmm_indexer.Pairs.Fees.Replaced.{Outcome, process_decoded_lem}
use saros_dlmm_indexer.Pairs.QuoteAssets.{
  QuoteAssetBadgeInitializationEvent, QuoteAssetBadgeUpdateEvent, enum_object, process_update_event,
}
use saros_dlmm_indexer.Pairs.QuoteAssets.Status.{process_update_event_enables}
use saros_dlmm_indexer.Tests.{sample_db, sample_world, sample_job, nothing_recorded}

abbrev sample_array : InitializeBinArrayDecoded
sample_array = record { index = 3; pair = codes "W"; bin_array = codes "B" }

no_bins : FreshFrom sample_db.bins (new_bin sample_array) 0 bin_array_size sample_world.bins
unfolding sample_db sample_world listed find_one eq_text bin_id
no_bins k le lt = refl

process_initialize_bin_array_creates_example :
    (s : sample_db.bins.State) × (process_initialize_bin_array sample_array sample_world
      ≡ (ok tt, record sample_world { bins = s }))
    × Added sample_db.bins (new_bin sample_array) 0 bin_array_size sample_world.bins s
    × ((i : ℕ) → i < bin_array_size → (new_bin sample_array i).lb_bin_id / bin_array_size ≡ 3)
process_initialize_bin_array_creates_example =
    process_initialize_bin_array_creates sample_array sample_world no_bins

abbrev sample_fees : StaticFeeParameters
sample_fees = record {
  base_factor = 9;
  filter_period = 9;
  decay_period = 9;
  reduction_factor = 9;
  variable_fee_control = 9;
  max_volatility_accumulator = 9;
  protocol_share = 9;
}

abbrev sample_config : InitializeBinStepConfigDecoded
sample_config = record {
  bin_step = 1;
  availability = open_to_all;
  fee_parameters = sample_fees;
  liquidity_book_config = codes "C";
  bin_step_config = codes "D";
}

process_initialize_bin_step_config_lem_example :
    (s : sample_db.configs.State) × (process_initialize_bin_step_config sample_config sample_world
      ≡ (ok tt, record sample_world { configs = s }))
    × ((j : Text)
        → sample_db.configs.find_one j s ≡ (
            if eq_text (codes "D") j
            then some (
                or_new
                  (sample_db.configs.find_one j sample_world.configs)
                  (new_config sample_config))
            else sample_db.configs.find_one j sample_world.configs))
process_initialize_bin_step_config_lem_example =
    process_initialize_bin_step_config_lem sample_config sample_world

abbrev sample_update : UpdatePairStaticFeeParametersDecoded
sample_update = record {
  fee_parameters = sample_fees;
  liquidity_book_config = codes "C";
  pair = codes "A";
}

process_decoded_lem_example :
    (s : sample_db.instructions.State) × Recorded sample_db sample_job
      update_pair_static_fee_parameters sample_world s
    × Outcome {db = sample_db} sample_job sample_update
        (sample_db.pairs.find_one (codes "A") sample_world.pairs)
        sample_world
        s
process_decoded_lem_example =
    process_decoded_lem sample_job sample_update sample_world
      (nothing_recorded update_pair_static_fee_parameters)

abbrev sample_asset : QuoteAsset
sample_asset = record {
  id = codes "Q";
  token_mint_id = codes "M";
  status = enabled;
  asset_type = other;
}

unfoldable asset_world : World sample_db
unfolding sample_db sample_world listed
asset_world = record sample_world { quote_assets = sample_asset ∷ [] }

abbrev disabling : QuoteAssetBadgeUpdateEvent
disabling = record { quote_asset_badge = codes "Q"; status = enum_object (codes "Disabled") }

asset_seen :
    sample_db.quote_assets.find_one (codes "Q") asset_world.quote_assets ≡ some sample_asset
unfolding asset_world sample_db listed find_one eq_text
asset_seen = refl

asset_not_recorded : recorded sample_db (id_of sample_job quote_asset) asset_world ≡ none
unfolding asset_world sample_db sample_world listed find_one
asset_not_recorded = refl

process_update_event_enables_example :
    (s : sample_db.instructions.State) × (t : sample_db.quote_assets.State) × (process_update_event
        sample_job disabling asset_world
      ≡ (ok tt, record asset_world { instructions = s; quote_assets = t }))
    × (sample_db.quote_assets.find_one (codes "Q") t ≡ some sample_asset)
    × ((j : Text)
        → sample_db.quote_assets.find_one j t ≡ (
            if eq_text (codes "Q") j
            then some sample_asset
            else sample_db.quote_assets.find_one j asset_world.quote_assets))
process_update_event_enables_example =
    process_update_event_enables sample_job disabling (codes "Disabled") sample_asset asset_world
      refl asset_not_recorded asset_seen

abbrev enabling : QuoteAssetBadgeInitializationEvent
enabling = record { quote_asset_badge = codes "Q"; token_mint = codes "M" }
