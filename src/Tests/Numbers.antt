-- ===== src/Tests/Numbers.antt =====
-- Whole numbers meet what Prices.Floats.Exact asks of floating point.
use saros_dlmm_indexer.Base.{◌≡◌, refl, ap, Option, none, some, [], ◌∷◌, ◌==◌, if◌then◌else◌, arith}
use saros_dlmm_indexer.Base.Int.{ℤ, pos, negsuc, ◌-ℤ◌, ◌*ℤ◌, quot}
use saros_dlmm_indexer.Text.{Text}
use saros_dlmm_indexer.Text.Decimal.{int_to_text, read_int, read_int-int_to_text}
use saros_dlmm_indexer.Prices.{scale}
use saros_dlmm_indexer.Prices.Floats.{Numbers}
use saros_dlmm_indexer.Prices.Floats.Exact.{IsDouble}

until_dot : Text → Text
until_dot [] = []
until_dot (c ∷ s) = if c == b'.' then [] else c ∷ until_dot s

or_zero_int : Option ℤ → ℤ
or_zero_int none = pos 0
or_zero_int (some z) = z

whole_part : Text → Option ℤ → ℤ
whole_part t none = or_zero_int (read_int (until_dot t))
whole_part t (some z) = z

parse_whole : Text → ℤ
parse_whole t = whole_part t (read_int t)

quot-scale : (z : ℤ) → quot (z *ℤ pos scale) (pos scale) ≡ z
unfolding quot ◌*ℤ◌
quot-scale (pos a) = ground arith
quot-scale (negsuc a) = ground arith

parse_whole_int : (z : ℤ) → parse_whole (int_to_text z) ≡ z
unfolding parse_whole whole_part
parse_whole_int z = ap (whole_part (int_to_text z)) (read_int-int_to_text z)

unfoldable pub whole_numbers : Numbers
unfolding parse_whole whole_part until_dot or_zero_int
whole_numbers = record {
  Number = ℤ;
  parse_float = parse_whole;
  of_text = parse_whole;
  of_int = λ z. z;
  to_string = int_to_text;
  minus = ◌-ℤ◌;
  times = ◌*ℤ◌;
  divide = quot;
  floor = some;
}

pub whole_numbers-IsDouble : IsDouble whole_numbers
unfolding whole_numbers
whole_numbers-IsDouble = record {
  parse_float_int = λ z s. parse_whole_int z;
  of_text_int = λ z s. parse_whole_int z;
  to_string_int = λ z s. refl;
  minus_int = λ a b sa sb sd. refl;
  scaled = λ z s. refl;
  unscaled = λ z s. quot-scale z;
}
