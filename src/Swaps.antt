-- ===== src/Swaps.antt =====
-- modules/indexer/processors/swap.processor.ts: what both kinds of job share, the decoded data and the
-- ids. Swaps.Instruction handles an instruction, Swaps.Amounts and Swaps.BinEvent the event of a bin,
-- and Swaps.Process tells them apart.
pub mod Instruction
pub mod Amounts
pub mod BinEvent
pub mod Process
use saros_dlmm_indexer.Base.{ℕ, Bool, Option}
use saros_dlmm_indexer.Text.{Text}
use saros_dlmm_indexer.Text.Decimal.{nat_to_text}
use saros_dlmm_indexer.Text.Join.{join}
use saros_dlmm_indexer.Schemas.{SwapType}
use saros_dlmm_indexer.Instruction.{inner_index_text}

-- The arguments as the coder gives them; the swap type is an object whose key is its variant.
pub record SwapArgs : Type 0 where
  pub amount : ℕ
  pub other_amount_threshold : ℕ
  pub swap_for_y : Bool
  pub swap_type : Text

pub record SwapDecoded : Type 0 where
  pub amount : ℕ
  pub other_amount_threshold : ℕ
  pub swap_for_y : Bool
  pub swap_type : SwapType
  pub pair : Text
  pub token_mint_x : Text
  pub token_mint_y : Text
  pub bin_array_lower : Text
  pub bin_array_upper : Text
  pub token_vault_x : Text
  pub token_vault_y : Text
  pub user_vault_x : Text
  pub user_vault_y : Text

-- `BinSwapEventDecoded`, its keys in base58.
pub record BinSwapEventDecoded : Type 0 where
  pub pair : Text
  pub swap_for_y : Bool
  pub protocol_fee : ℕ
  pub bin_id : ℕ
  pub amount_in : ℕ
  pub amount_out : ℕ
  pub volatility_accumulator : ℕ
  pub fee : ℕ

unfoldable pub get_swap_event_id : ℕ → Text → ℕ → Option ℕ → Text
get_swap_event_id block_number signature index inner_index =
    join (nat_to_text block_number)
      (join signature (join (nat_to_text index) (inner_index_text inner_index)))

unfoldable pub get_bin_swap_event_id : ℕ → Text → ℕ → Option ℕ → Text → Text
get_bin_swap_event_id block_number signature index inner_index bin_id =
    join (nat_to_text block_number)
      (join signature (join (nat_to_text index) (join (inner_index_text inner_index) bin_id)))

-- The vaults of a swap on the side that it takes from and on the side that it pays to.
pub record Vaults : Type 0 where
  pub user_in : Text
  pub user_out : Text
  pub pair_in : Text
  pub pair_out : Text
