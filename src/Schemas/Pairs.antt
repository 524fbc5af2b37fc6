-- ===== src/Schemas/Pairs.antt =====
-- pair.schema.ts, bin-step-config.schema.ts, quote-asset.schema.ts and token-mint.schema.ts, and their
-- enums.
use saros_dlmm_indexer.Base.{ℕ}
use saros_dlmm_indexer.Text.{Text}

pub record Pair : Type 0 where
  pub id : Text
  pub bin_step : ℕ
  pub active_id : ℕ
  pub liquidity_book_config : Text
  pub bin_step_config_id : Text
  pub token_mint_x_id : Text
  pub token_mint_y_id : Text
  pub quote_asset_id : Text
  pub name : Text
  pub symbol : Text
  pub base_factor : ℕ
  pub filter_period : ℕ
  pub decay_period : ℕ
  pub reduction_factor : ℕ
  pub variable_fee_control : ℕ
  pub max_volatility_accumulator : ℕ
  pub protocol_share : ℕ
  pub volatility_accumulator : ℕ
  pub volatility_reference : ℕ
  pub id_reference : ℕ
  pub time_last_updated : ℕ
  pub protocol_fees_x : Text
  pub protocol_fees_y : Text
  pub reserve_x : Text
  pub reserve_y : Text

pub data ConfigAvailability : Type 0 where
  open_to_all closed : ConfigAvailability

pub data BinStepConfigStatus : Type 0 where
  active inactive : BinStepConfigStatus

pub record BinStepConfig : Type 0 where
  pub id : Text
  pub liquidity_book_config : Text
  pub status : BinStepConfigStatus
  pub availability : ConfigAvailability
  pub bin_step : ℕ
  pub base_factor : ℕ
  pub filter_period : ℕ
  pub decay_period : ℕ
  pub reduction_factor : ℕ
  pub variable_fee_control : ℕ
  pub max_volatility_accumulator : ℕ
  pub protocol_share : ℕ

pub data QuoteAssetStatus : Type 0 where
  enabled disabled : QuoteAssetStatus

pub data QuoteAssetType : Type 0 where
  native stable other : QuoteAssetType

pub record QuoteAsset : Type 0 where
  pub id : Text
  pub token_mint_id : Text
  pub status : QuoteAssetStatus
  pub asset_type : QuoteAssetType

pub record TokenMint : Type 0 where
  pub id : Text
  pub supply : Text
  pub decimals : ℕ
  pub name : Text
  pub symbol : Text

abbrev pub pair_key : Pair → Text
pair_key d = d.id

abbrev pub bin_step_config_key : BinStepConfig → Text
bin_step_config_key d = d.id

abbrev pub quote_asset_key : QuoteAsset → Text
quote_asset_key d = d.id

abbrev pub token_mint_key : TokenMint → Text
token_mint_key d = d.id
