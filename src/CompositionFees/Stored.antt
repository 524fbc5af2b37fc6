-- ===== src/CompositionFees/Stored.antt =====
-- What an event of composition fees leaves.

use saros_dlmm_indexer.Base.{
  ◌≡◌, ◌∙◌, refl, ap, ℕ, ◌+◌, ◌*◌, ◌/◌, ◌%◌, ◌^◌, some, [], ◌∷◌, ◌++◌, length, arith, ltb,
  Bool-cases, inl, inr,
}
use saros_dlmm_indexer.Base.Int.{pos}
use saros_dlmm_indexer.Text.{Text}
use saros_dlmm_indexer.Text.Decimal.{
  nat_to_text, int_to_text, digits, read_digits, read_digits-append, read_digits-nat_to_text,
}
use saros_dlmm_indexer.Store.World.{World}
use saros_dlmm_indexer.Prices.Decimals.RoundTrip.{read_digits_shift}
use saros_dlmm_indexer.Prices.Floats.{Numbers}
use saros_dlmm_indexer.Prices.Floats.Exact.{IsSafe, IsDouble}
use saros_dlmm_indexer.CompositionFees.{or_nought, new_protocol_fees}

or_nought-append : (s : Text) (c : ℕ) → or_nought (s ++ (c ∷ [])) ≡ s ++ (c ∷ [])
or_nought-append [] c = refl
or_nought-append (d ∷ s) c = refl

or_nought-nat_to_text : (n : ℕ) → or_nought (nat_to_text n) ≡ nat_to_text n
unfolding nat_to_text digits
or_nought-nat_to_text n = elim (Bool-cases (ltb n 10)) [
  | inl small ↦ rw small refl
  | inr large ↦ rw large (or_nought-append (digits n (n / 10)) (48 + n % 10))
]

module _ (n : Numbers) where
  -- Below 2 ^ 53 the protocol fees that a pair gets are the digits of the old fees with those of the event
  -- behind them, and not the sum.
  pub new_protocol_fees_joins :
      IsDouble n
      → (current fees : ℕ) → IsSafe (pos current)
      → read_digits (new_protocol_fees n (nat_to_text current) fees) 0
        ≡ some (current * 10 ^ length (nat_to_text fees) + fees)
  unfolding new_protocol_fees int_to_text
  new_protocol_fees_joins laws current fees safe =
      let text : n.to_string (n.parse_float (or_nought (nat_to_text current)))
          ≡ nat_to_text current =
        ap (λ t. n.to_string (n.parse_float t)) (or_nought-nat_to_text current)
        ∙ ap n.to_string (laws.parse_float_int (pos current) safe)
        ∙ laws.to_string_int (pos current) safe in
      let start : current ≡ 0 + current = omega arith in
      let places = 10 ^ length (nat_to_text fees) in
      let swapped : fees + current * places ≡ current * places + fees = omega arith in
      ap (λ t. read_digits (t ++ nat_to_text fees) 0) text
      ∙ read_digits-append (nat_to_text current) (nat_to_text fees) 0
          (read_digits-nat_to_text current)
      ∙ ap (read_digits (nat_to_text fees)) start
      ∙ read_digits_shift (nat_to_text fees) 0 current fees (read_digits-nat_to_text fees)
      ∙ ap some swapped
