-- ===== src/Schemas/Swaps.antt =====
-- swap-event.schema.ts, bin-swap-event.schema.ts and composition-fees-event.schema.ts.
use saros_dlmm_indexer.Base.{ℕ, Bool, Option}
use saros_dlmm_indexer.Base.Int.{ℤ}
use saros_dlmm_indexer.Text.{Text}

pub data SwapType : Type 0 where
  exact_input exact_output : SwapType

pub record SwapEvent : Type 0 where
  pub id : Text
  pub pair_id : Text
  pub swap_type : SwapType
  pub token_mint_x_id : Text
  pub token_mint_y_id : Text
  pub bin_array_lower : Text
  pub bin_array_upper : Text
  pub token_vault_x : Text
  pub token_vault_y : Text
  pub user_vault_x : Text
  pub user_vault_y : Text
  pub block_number : ℕ
  pub signature : Text
  pub index : ℕ
  pub is_inner : Bool
  pub inner_index : Option ℕ
  pub block_time : Option ℕ

pub record BinSwapEvent : Type 0 where
  pub id : Text
  pub pair_id : Text
  pub bin_id : Text
  pub lb_bin_id : ℕ
  pub user_vault_in : Text
  pub user_vault_out : Text
  pub pair_vault_in : Text
  pub pair_vault_out : Text
  pub swap_for_y : Bool
  pub amount_in : Text
  pub amount_in_native : Text
  pub amount_in_usd : Text
  pub amount_out : Text
  pub amount_out_native : Text
  pub amount_out_usd : Text
  pub fees : Text
  pub fees_native : Text
  pub fees_usd : Text
  pub protocol_fees : Text
  pub protocol_fees_native : Text
  pub protocol_fees_usd : Text
  pub volatility_accumulator : ℕ
  pub block_number : ℕ
  pub signature : Text
  pub index : ℕ
  pub inner_index : ℤ
  pub block_time : ℕ

pub record CompositionFeesEvent : Type 0 where
  pub id : Text
  pub pair_id : Text
  pub bin_id : Text
  pub lb_bin_id : ℕ
  pub composition_fees_x : Text
  pub composition_fees_x_native : Text
  pub composition_fees_x_usd : Text
  pub composition_fees_y : Text
  pub composition_fees_y_native : Text
  pub composition_fees_y_usd : Text
  pub protocol_fees_x : Text
  pub protocol_fees_x_native : Text
  pub protocol_fees_x_usd : Text
  pub protocol_fees_y : Text
  pub protocol_fees_y_native : Text
  pub protocol_fees_y_usd : Text
  pub block_number : ℕ
  pub signature : Text
  pub index : ℕ
  pub inner_index : Option ℕ
  pub block_time : Option ℕ

abbrev pub swap_event_key : SwapEvent → Text
swap_event_key d = d.id

abbrev pub bin_swap_event_key : BinSwapEvent → Text
bin_swap_event_key d = d.id

abbrev pub composition_fees_event_key : CompositionFeesEvent → Text
composition_fees_event_key d = d.id
