-- ===== src/Prices/Floats/Exact.antt =====
-- Below 2 ^ 53 the operations on decimals are exact on whole numbers.
use saros_dlmm_indexer.Base.{ℕ, ◌+◌, ◌*◌, ◌≤◌, ◌≡◌, ◌∙◌, ap, some, arith}
use saros_dlmm_indexer.Base.Int.{
  ℤ, pos, pos_part, neg_part, ◌+ℤ◌, ◌-ℤ◌, ◌*ℤ◌, +ℤ_parts, eq_of_parts,
}
use saros_dlmm_indexer.Text.Decimal.{int_to_text}
use saros_dlmm_indexer.Prices.{scale}
use saros_dlmm_indexer.Prices.Floats.{Numbers, q64_to_float, float_to_q64, q64_text, on_texts, add}

abbrev pub magnitude : ℤ → ℕ
magnitude z = pos_part z + neg_part z

-- `Number.isSafeInteger`, but for the bound itself.
abbrev pub IsSafe : ℤ → Type 0
IsSafe z = magnitude z ≤ 9007199254740992

-- What IEEE 754 doubles promise for whole numbers up to 2 ^ 53: they are held exactly, printed without
-- an exponent, and a product with a power of two, like its inverse, is exact.
pub record IsDouble (n : Numbers) : Type 0 where
  pub parse_float_int : (z : ℤ) → IsSafe z → n.parse_float (int_to_text z) ≡ n.of_int z
  pub of_text_int : (z : ℤ) → IsSafe z → n.of_text (int_to_text z) ≡ n.of_int z
  pub to_string_int : (z : ℤ) → IsSafe z → n.to_string (n.of_int z) ≡ int_to_text z
  pub minus_int :
      (a b : ℤ)
      → IsSafe a
      → IsSafe b
      → IsSafe (a -ℤ b)
      → n.minus (n.of_int a) (n.of_int b) ≡ n.of_int (a -ℤ b)
  pub scaled :
      (z : ℤ)
      → IsSafe z
      → n.floor (n.times (n.of_int z) (n.of_int (pos scale))) ≡ some (z *ℤ pos scale)
  pub unscaled :
      (z : ℤ) → IsSafe z → n.divide (n.of_int (z *ℤ pos scale)) (n.of_int (pos scale)) ≡ n.of_int z

times_scale_parts :
    (a : ℤ)
    → pos_part (a *ℤ pos scale) + neg_part a * scale
      ≡ neg_part (a *ℤ pos scale) + pos_part a * scale
unfolding ◌*ℤ◌
times_scale_parts a = ground arith

times_scale-+ℤ : (a b : ℤ) → a *ℤ pos scale +ℤ b *ℤ pos scale ≡ (a +ℤ b) *ℤ pos scale
times_scale-+ℤ a b = eq_of_parts (a *ℤ pos scale +ℤ b *ℤ pos scale) ((a +ℤ b) *ℤ pos scale) (
    omega (
      arith,
      times_scale_parts a,
      times_scale_parts b,
      times_scale_parts (a +ℤ b),
      +ℤ_parts a b,
      +ℤ_parts (a *ℤ pos scale) (b *ℤ pos scale),
    ))

module _ {n : Numbers} (laws : IsDouble n) where
  float_to_q64_int :
      (z : ℤ) → IsSafe z → float_to_q64 n (n.parse_float (int_to_text z)) ≡ some (z *ℤ pos scale)
  unfolding float_to_q64
  float_to_q64_int z s =
      ap (λ x. n.floor (n.times x (n.of_int (pos scale)))) (laws.parse_float_int z s)
      ∙ laws.scaled z s

  pub add_int :
      (a b : ℤ)
      → IsSafe a
      → IsSafe b
      → IsSafe (a +ℤ b)
      → add n (int_to_text a) (int_to_text b) ≡ some (int_to_text (a +ℤ b))
  unfolding add on_texts q64_text q64_to_float
  add_int a b sa sb sum =
      ap (λ x. q64_text n ◌+ℤ◌ x (float_to_q64 n (n.parse_float (int_to_text b))))
        (float_to_q64_int a sa)
      ∙ ap (λ x. q64_text n ◌+ℤ◌ (some (a *ℤ pos scale)) x) (float_to_q64_int b sb)
      ∙ ap (λ q. some (n.to_string (q64_to_float n q))) (times_scale-+ℤ a b)
      ∙ ap (λ x. some (n.to_string x)) (laws.unscaled (a +ℤ b) sum)
      ∙ ap some (laws.to_string_int (a +ℤ b) sum)
