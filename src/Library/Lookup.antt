-- ===== src/Library/Lookup.antt =====
-- A lookup by discriminator finds an entry of the interface that carries it.
use saros_dlmm_indexer.Base.{
  ℕ, ◌≡◌, Bool, true, ◌&&◌, some, List, [], ◌∷◌, arith, Bool-cases, inl, inr,
}
use saros_dlmm_indexer.Text.{eq_text, eq_text_iff}
use saros_dlmm_indexer.Idl.{IdlInstruction}
use saros_dlmm_indexer.Library.{find_instruction}

abbrev pub all_instructions : (IdlInstruction → Bool) → List IdlInstruction → Bool
all_instructions p [] = true
all_instructions p (ix ∷ ixs) = p ix && all_instructions p ixs

pub find_instruction_lem :
    (d : List ℕ) (p : IdlInstruction → Bool) (ixs : List IdlInstruction) {ix : IdlInstruction}
    → all_instructions p ixs ≡ true
    → find_instruction d ixs ≡ some ix
    → (ix.discriminator ≡ d) × (p ix ≡ true)
unfolding find_instruction
find_instruction_lem d p [] h e = cc
find_instruction_lem d p (x ∷ ixs) h e = elim (Bool-cases (eq_text x.discriminator d)) [
  | inl hit ↦ ground (arith, eq_text_iff x.discriminator d)
  | inr miss ↦ find_instruction_lem d p ixs (ground arith) (ground arith)
]
