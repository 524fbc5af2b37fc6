-- ===== src/Swaps/Amounts.antt =====
-- `calculateSwapAmounts` of swap.processor.ts: the amounts of an event in whole tokens, and their values
-- at the prices that are given.
use saros_dlmm_indexer.Base.{ℕ, Option, none, some, if◌then◌else◌}
use saros_dlmm_indexer.Text.{Text}
use saros_dlmm_indexer.Schemas.{TokenMint}
use saros_dlmm_indexer.Prices.Decimals.{normalize_amount}
use saros_dlmm_indexer.Prices.Floats.{Numbers, multiply}
use saros_dlmm_indexer.Swaps.{BinSwapEventDecoded}

-- A price in dollars and in the native token.
pub record TokenPrice : Type 0 where
  pub usd : Text
  pub native : Text

-- An amount in whole tokens, and its values.
pub record Valued : Type 0 where
  pub normalized : Text
  pub usd : Text
  pub native : Text

pub record SwapAmounts : Type 0 where
  pub amount_in : Valued
  pub amount_out : Valued
  pub fee : Valued
  pub protocol_fee : Valued

infixl 5 ◌>>=◌
abbrev ◌>>=◌ : {A B : Type 0} → Option A → (A → Option B) → Option B
none >>= f = none
some a >>= f = f a

module _ (n : Numbers) where
  -- `none` is the RangeError of a product that is not finite.
  unfoldable pub valued : Text → TokenPrice → Option Valued
  valued normalized p = do
    usd ← multiply n normalized p.usd
    native ← multiply n normalized p.native
    some (record { normalized = normalized; usd = usd; native = native })

  -- The fees are paid in the token that goes in.
  unfoldable pub amounts_at :
      BinSwapEventDecoded → ℕ → ℕ → TokenPrice → TokenPrice → Option SwapAmounts
  unfolding valued
  amounts_at e decimals_in decimals_out price_in price_out = do
    amount_in ← valued (normalize_amount e.amount_in decimals_in) price_in
    amount_out ← valued (normalize_amount e.amount_out decimals_out) price_out
    fee ← valued (normalize_amount e.fee decimals_in) price_in
    protocol_fee ← valued (normalize_amount e.protocol_fee decimals_in) price_in
    some (record {
      amount_in = amount_in;
      amount_out = amount_out;
      fee = fee;
      protocol_fee = protocol_fee;
    })

  unfoldable pub calculate_swap_amounts :
      BinSwapEventDecoded → TokenMint → TokenMint → TokenPrice → TokenPrice → Option SwapAmounts
  unfolding amounts_at
  calculate_swap_amounts e mint_x mint_y price_x price_y =
      if e.swap_for_y
      then amounts_at e mint_x.decimals mint_y.decimals price_x price_y
      else amounts_at e mint_y.decimals mint_x.decimals price_y price_x
