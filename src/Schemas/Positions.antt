-- ===== src/Schemas/Positions.antt =====
-- bin.schema.ts, position.schema.ts, liquidity-shares.schema.ts, position-update-event.schema.ts
-- and token-account.schema.ts.
use saros_dlmm_indexer.Base.{ℕ, Bool, Option, not, ◌&&◌}
use saros_dlmm_indexer.Text.{Text, eq_text}

pub record Bin : Type 0 where
  pub id : Text
  pub lb_bin_id : ℕ
  pub bin_array_id : Text
  pub pair_id : Text
  pub bin_array_index : ℕ
  pub total_supply : Text
  pub reserve_x : Text
  pub reserve_y : Text

pub record Position : Type 0 where
  pub id : Text
  pub pair_id : Text
  pub position_mint_id : Text
  pub owner_id : Text
  pub lower_bin_lb_id : ℕ
  pub upper_bin_lb_id : ℕ

pub record LiquidityShares : Type 0 where
  pub id : Text
  pub position_id : Text
  pub index : ℕ
  pub balance : Text

pub record PositionUpdateEvent : Type 0 where
  pub id : Text
  pub signature : Text
  pub pair_id : Text
  pub position_id : Text
  pub bin_id : Text
  pub lb_bin_id : ℕ
  pub delta_liquidity_balance : Text
  pub delta_amount_x : Text
  pub delta_amount_y : Text
  pub index : ℕ
  pub inner_index : Option ℕ
  pub block_number : ℕ
  pub block_time : ℕ

pub record TokenAccount : Type 0 where
  pub id : Text
  pub owner_id : Text
  pub token_mint_id : Text
  pub balance : Text

abbrev pub bin_key : Bin → Text
bin_key d = d.id

abbrev pub position_key : Position → Text
position_key d = d.id

-- The unique index on `positionMintId`: where `p` is stored, the position `id` cannot have the mint `mint`.
abbrev pub clashes : Text → Text → Position → Bool
clashes id mint p = eq_text p.position_mint_id mint && not (eq_text p.id id)

abbrev pub share_key : LiquidityShares → Text
share_key d = d.id

abbrev pub update_event_key : PositionUpdateEvent → Text
update_event_key d = d.id

abbrev pub token_account_key : TokenAccount → Text
token_account_key d = d.id
