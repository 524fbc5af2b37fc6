-- ===== src/Tests/Prices.antt =====
-- A bin on each side of the middle.
use saros_dlmm_indexer.Base.{ℕ, ◌≡◌, ◌≤◌, ◌*◌, ◌^◌, some, arith, refl}
use saros_dlmm_indexer.Prices.{
  middle_bin_id, scale, pow_loop, pow_q64, inverse_price, above, below, price, get_price_from_id,
}
use saros_dlmm_indexer.Prices.Rounding.{pow_q64_le}
use saros_dlmm_indexer.Prices.Bounds.{get_price_from_id_lem}

-- 1.01 and its inverse, rounded down.
one_up : get_price_from_id 100 8388609 ≡ price 18631211514446647132
unfolding get_price_from_id above below pow_q64 pow_loop inverse_price
one_up = refl

three_down : get_price_from_id 100 8388605 ≡ price 17904228059285152220
unfolding get_price_from_id above below pow_q64 pow_loop inverse_price
three_down = refl

get_price_from_id_lem_example :
    (n : ℕ) × (get_price_from_id 100 8388605 ≡ price n)
    × (middle_bin_id ≤ 8388605 → scale ≤ n)
    × (8388605 ≤ middle_bin_id → n ≤ scale)
get_price_from_id_lem_example = get_price_from_id_lem 100 8388605 (omega arith) (omega arith)

cubed : pow_q64 18631211514446647132 3 ≡ some 19005698865887024738
unfolding pow_q64 pow_loop
cubed = refl

pow_q64_le_example : 19005698865887024738 * scale ^ 3 ≤ scale * 18631211514446647132 ^ 3
pow_q64_le_example = pow_q64_le 18631211514446647132 3 19005698865887024738 cubed
