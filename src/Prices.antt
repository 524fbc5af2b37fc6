-- ===== src/Prices.antt =====
-- utils/bin-math.ts: the price of a bin as a Q64.64 number, up to `q64ToFloat`, which divides it by the
-- scale in floating point.
pub mod Bounds
pub mod Rounding
pub mod Decimals
pub mod Floats
use saros_dlmm_indexer.Base.{
  ℕ, zero, suc, Bool, true, false, Option, none, some, ◌+◌, ◌-◌, ◌*◌, ◌/◌, ◌%◌, ◌==◌, ltb, leb,
  ◌&&◌, if◌then◌else◌,
}

abbrev pub middle_bin_id : ℕ
middle_bin_id = 8388608

abbrev pub scale : ℕ
scale = 18446744073709551616

abbrev pub max_bin_step : ℕ
max_bin_step = 100

-- The `while (exp > 0)` of `powQ64`, on fuel: `none` where the fuel runs out.
unfoldable pub pow_loop : ℕ → ℕ → ℕ → ℕ → Option ℕ
pow_loop fuel result current_base zero = some result
pow_loop zero result current_base (suc e) = none
pow_loop (suc fuel) result current_base (suc e) =
    let exp = suc e in
    let result' = if exp % 2 == 1 then result * current_base / scale else result in
    pow_loop fuel result' (current_base * current_base / scale) (exp / 2)

-- `powQ64` at an exponent that is not negative, the only ones that it gets.
unfoldable pub pow_q64 : ℕ → ℕ → Option ℕ
unfolding pow_loop
pow_q64 base exponent =
    if exponent == 0
    then some scale
    else if exponent == 1
    then some base
    else pow_loop exponent scale base exponent

abbrev pub base_of : ℕ → ℕ
base_of bin_step = scale + bin_step * scale / 10000

-- What `getPriceFromId` makes of the bin step and the id: it throws, or has the price in Q64.64. The
-- division by a power of zero is a RangeError. The price 1.0 of the middle bin is the scale.
pub data Price : Type 0 where
  invalid_bin_step division_by_zero out_of_fuel : Price
  price : ℕ → Price

unfoldable pub inverse_price : ℕ → Price
inverse_price zero = division_by_zero
inverse_price (suc r) = price (scale * scale / suc r)

unfoldable pub above : Option ℕ → Price
above none = out_of_fuel
above (some r) = price r

unfoldable pub below : Option ℕ → Price
unfolding inverse_price
below none = out_of_fuel
below (some r) = inverse_price r

unfoldable pub get_price_from_id : ℕ → ℕ → Price
unfolding above below
get_price_from_id bin_step id =
    if leb 1 bin_step && leb bin_step max_bin_step
    then if id == middle_bin_id
      then price scale
      else if ltb middle_bin_id id
      then above (pow_q64 (base_of bin_step) (id - middle_bin_id))
      else below (pow_q64 (base_of bin_step) (middle_bin_id - id))
    else invalid_bin_step
