-- ===== src/Pairs.antt =====
-- The processors of what belongs to pairs: their creation, bin arrays, fee configurations and quote
-- assets.
pub mod BinArray
pub mod StepConfig
pub mod Fees
pub mod QuoteAssets
pub mod Create
use saros_dlmm_indexer.Base.{ℕ}

-- `StaticFeeParameters`
pub record StaticFeeParameters : Type 0 where
  pub base_factor : ℕ
  pub filter_period : ℕ
  pub decay_period : ℕ
  pub reduction_factor : ℕ
  pub variable_fee_control : ℕ
  pub max_volatility_accumulator : ℕ
  pub protocol_share : ℕ
