-- ===== src/Instruction/Ids.antt =====
-- The text ids of instructions keep their parts apart.
use saros_dlmm_indexer.Base.{ℕ, ◌≡◌, refl, ◌≢◌, Option, none, some, [], ◌∷◌, arith, ap, sym, All}
use saros_dlmm_indexer.Text.{Text, codes, to_lower_case}
use saros_dlmm_indexer.Text.Decimal.{
  nat_to_text, nat_to_text-injective, nat_to_text-IsDigit, IsDigit,
}
use saros_dlmm_indexer.Text.Join.{NoDash, nat_to_text-NoDash, join-injective}
use saros_dlmm_indexer.Instruction.{inner_index_text, generate_instruction_id}

star_not_digits : (n : ℕ) → codes "*" ≢ nat_to_text n
star_not_digits n e = star_first (nat_to_text n) (nat_to_text-IsDigit n) e
  where
    star_first : (s : Text) → All IsDigit s → codes "*" ≢ s
    star_first [] d e = ground arith
    star_first (c ∷ s) d e = ground arith

inner_index_text-injective : (i j : Option ℕ) → inner_index_text i ≡ inner_index_text j → i ≡ j
inner_index_text-injective none none e = refl
inner_index_text-injective none (some j) e = absurd (star_not_digits j e)
inner_index_text-injective (some i) none e = absurd (star_not_digits i (sym e))
inner_index_text-injective (some i) (some j) e = ap some (nat_to_text-injective i j e)

-- With signatures and processor names that hold no dash, as base58 signatures and the names of
-- `ProcessorName` do, two instructions get one id only if they agree in block, signature,
-- lower-case processor name, index and inner index.
pub generate_instruction_id-injective :
    (b b' : ℕ) (s s' p p' : Text) (i i' : ℕ) (j j' : Option ℕ)
    → NoDash s
    → NoDash s'
    → NoDash (to_lower_case p)
    → NoDash (to_lower_case p')
    → generate_instruction_id b s p i j ≡ generate_instruction_id b' s' p' i' j'
    → (b ≡ b') × (s ≡ s') × (to_lower_case p ≡ to_lower_case p') × (i ≡ i') × (j ≡ j')
unfolding generate_instruction_id
generate_instruction_id-injective b b' s s' p p' i i' j j' ns ns' np np' e =
    let (eb, e₁) =
      join-injective (nat_to_text b) (nat_to_text b') _ _ (nat_to_text-NoDash b)
        (nat_to_text-NoDash b') e in
    let (es, e₂) = join-injective s s' _ _ ns ns' e₁ in
    let (ep, e₃) = join-injective (to_lower_case p) (to_lower_case p') _ _ np np' e₂ in
    let (ei, ej) =
      join-injective (nat_to_text i) (nat_to_text i') _ _ (nat_to_text-NoDash i)
        (nat_to_text-NoDash i') e₃ in
    (
      nat_to_text-injective b b' eb,
      es,
      ep,
      nat_to_text-injective i i' ei,
      inner_index_text-injective j j' ej,
    )
