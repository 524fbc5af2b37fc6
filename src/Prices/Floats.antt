-- ===== src/Prices/Floats.antt =====
-- The operations of utils/bin-math.ts that go through floating point. The numbers of JavaScript are
-- taken as a type with the operations that the code calls; what it relies on is in Prices.Floats.Exact.
pub mod Exact
use mathlib.Core.Option
use saros_dlmm_indexer.Base.{ℕ, Bool, Option, none, some, if◌then◌else◌}
use saros_dlmm_indexer.Base.Int.{ℤ, pos, ◌+ℤ◌, ◌-ℤ◌, ◌*ℤ◌, quot}
use saros_dlmm_indexer.Text.{Text}
use saros_dlmm_indexer.Prices.{scale}

pub record Numbers : Type 1 where
  pub Number : Type 0
  pub parse_float : Text → Number
  -- `Number(text)`, to which an operator brings a `BN` by its `toString`
  pub of_text : Text → Number
  -- `Number(bigint)`
  pub of_int : ℤ → Number
  pub to_string : Number → Text
  pub minus : Number → Number → Number
  pub times : Number → Number → Number
  pub divide : Number → Number → Number
  -- `BigInt(Math.floor(x))`: `none` is the RangeError of a number that is not finite
  pub floor : Number → Option ℤ

module _ (n : Numbers) where
  unfoldable pub q64_to_float : ℤ → n.Number
  q64_to_float q = n.divide (n.of_int q) (n.of_int (pos scale))

  unfoldable pub float_to_q64 : n.Number → Option ℤ
  float_to_q64 value = n.floor (n.times value (n.of_int (pos scale)))

  unfoldable pub q64_text : (ℤ → ℤ → ℤ) → Option ℤ → Option ℤ → Option Text
  unfolding q64_to_float
  q64_text op (some a) (some b) = some (n.to_string (q64_to_float (op a b)))
  q64_text op _ _ = none

  -- Both operands are read before either is converted: `none` is a RangeError.
  unfoldable pub on_texts : (ℤ → ℤ → ℤ) → Text → Text → Option Text
  unfolding q64_text float_to_q64
  on_texts op a b = q64_text op (float_to_q64 (n.parse_float a)) (float_to_q64 (n.parse_float b))

  unfoldable pub multiply : Text → Text → Option Text
  unfolding on_texts
  multiply = on_texts (λ a b. quot (a *ℤ b) (pos scale))

  unfoldable pub add : Text → Text → Option Text
  unfolding on_texts
  add = on_texts ◌+ℤ◌

  unfoldable pub subtract : Text → Text → Option Text
  unfolding on_texts
  subtract = on_texts ◌-ℤ◌
