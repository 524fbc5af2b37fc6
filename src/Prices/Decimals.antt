-- ===== src/Prices/Decimals.antt =====
-- `normalizeAmount` of utils/bin-math.ts: an amount of a token's smallest unit, written as a decimal
-- of whole tokens with up to 18 places. The amounts are those of events and never negative.
pub mod RoundTrip
use saros_dlmm_indexer.Base.{
  ℕ, zero, suc, ◌-◌, ◌*◌, ◌/◌, ◌%◌, ◌^◌, Bool, List, [], ◌∷◌, ◌++◌, length, ◌==◌, if◌then◌else◌,
}
use saros_dlmm_indexer.Text.{Text}
use saros_dlmm_indexer.Text.Decimal.{nat_to_text}

abbrev pub zeros : ℕ → Text
zeros zero = []
zeros (suc n) = b'0' ∷ zeros n

-- `padStart(width, '0')`
abbrev pub pad_start : ℕ → Text → Text
pad_start width t = zeros (width - length t) ++ t

-- `replace(/0+$/, '')`, from the right.
abbrev pub drop_zero : ℕ → Text → Text
drop_zero c [] = if c == b'0' then [] else c ∷ []
drop_zero c (d ∷ s) = c ∷ d ∷ s

unfoldable pub strip_zeros : Text → Text
strip_zeros [] = []
strip_zeros (c ∷ s) = drop_zero c (strip_zeros s)

unfoldable pub with_fraction : ℕ → Text → Text
with_fraction whole [] = nat_to_text whole
with_fraction whole (c ∷ s) = nat_to_text whole ++ (b'.' ∷ c ∷ s)

unfoldable pub normalize_amount : ℕ → ℕ → Text
unfolding with_fraction strip_zeros
normalize_amount amount decimals =
    let divisor = 10 ^ decimals in
    let whole_part = amount / divisor in
    let remainder = amount % divisor in
    let fractional_part = remainder * 10 ^ 18 / divisor in
    if remainder == 0
    then nat_to_text whole_part
    else with_fraction whole_part (strip_zeros (pad_start 18 (nat_to_text fractional_part)))
