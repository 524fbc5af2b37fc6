-- ===== src/Transactions/Parser/Sound.antt =====
-- What an extracted message says of its transaction.
use saros_dlmm_indexer.Base.{
  ℕ, suc, ◌+◌, ◌≡◌, refl, ◌⊎◌, inl, inr, Bool, true, false, Option, none, some, List, [], ◌∷◌,
  arith, get_elem?, Bool-cases, ap, ◌∙◌, Elem, Elem-append_cases,
}
use saros_dlmm_indexer.Text.{Text, eq_text, eq_text_iff}
use saros_dlmm_indexer.Schemas.{ParsedInstructionMessage}
use saros_dlmm_indexer.Transactions.Parser.{
  RawInstruction, parsed, partially_decoded, InnerInstructionSet, ParsedTransaction, message, pick,
  top_level, inner_level, inner_sets, extract_liquidity_book_instructions,
}

module _ (program_id : Text) (t : ParsedTransaction) where
  pick_sound :
      (x : RawInstruction) (m : ℕ) (inner : Option ℕ) (b : Bool) (r : ParsedInstructionMessage)
      → Elem r (pick program_id t x m inner b)
      → (x ≡ partially_decoded r.instruction)
        × (r.instruction.program_id ≡ program_id)
        × (r ≡ message program_id t r.instruction m inner b)
  unfolding pick
  pick_sound parsed m inner b r h = absurd h
  pick_sound (partially_decoded y) m inner b r h =
      elim (Bool-cases (eq_text y.program_id program_id)) [
        | inl own ↦
            let e : r ≡ message program_id t y m inner b = elim (rw own at h) [
              | inl e ↦ e
              | inr f ↦ absurd f
            ] in
            rw e (refl, (eq_text_iff y.program_id program_id).0 own, refl)
        | inr other ↦ absurd (rw other at h)
      ]

  -- `ys` is what is left of `xs` behind the first `i` entries.
  abbrev IsRest : ℕ → List RawInstruction → List RawInstruction → Type 0
  IsRest i ys xs = (k : ℕ) → get_elem? xs (k + i) ≡ get_elem? ys k

  IsRest-suc :
      (i : ℕ) (y : RawInstruction) (ys xs : List RawInstruction)
      → IsRest i (y ∷ ys) xs
      → IsRest (suc i) ys xs
  IsRest-suc i y ys xs h k = let e : k + suc i ≡ suc k + i = omega arith in rw e (h (suc k))

  IsRest-head :
      (i : ℕ) (y : RawInstruction) (ys xs : List RawInstruction)
      → IsRest i (y ∷ ys) xs
      → get_elem? xs i ≡ some y
  IsRest-head i y ys xs h = let e : i ≡ 0 + i = omega arith in rw e (h 0)

  IsRest-self : (xs : List RawInstruction) → IsRest 0 xs xs
  IsRest-self xs k = let e : k + 0 ≡ k = omega arith in rw e

  -- The labels of a top-level and of an inner instruction.
  abbrev pub IsTop : List RawInstruction → ParsedInstructionMessage → Type 0
  IsTop xs r =
      (get_elem? xs r.instruction_index ≡ some (partially_decoded r.instruction))
      × (r.inner_instruction_index ≡ none)
      × (r.is_inner ≡ false)

  abbrev pub IsInnerOf : InnerInstructionSet → ParsedInstructionMessage → Type 0
  IsInnerOf set r =
      (r.instruction_index ≡ set.index)
      × (r.is_inner ≡ true)
      × ((j : ℕ) × (r.inner_instruction_index ≡ some j)
          × (get_elem? set.instructions j ≡ some (partially_decoded r.instruction)))

  top_level_sound :
      (i : ℕ) (ys xs : List RawInstruction) (r : ParsedInstructionMessage)
      → IsRest i ys xs
      → Elem r (top_level program_id t i ys)
      → (r.instruction.program_id ≡ program_id) × IsTop xs r
  unfolding top_level
  top_level_sound i [] xs r h m = absurd m
  top_level_sound i (y ∷ ys) xs r h m =
      elim (Elem-append_cases r (pick program_id t y i none false)
        (top_level program_id t (suc i) ys) m) [
          | inl here ↦
              let (own, p, e) = pick_sound y i none false r here in
              let index : r.instruction_index ≡ i = ap (λ m. m.instruction_index) e in
              (
                p,
                (
                  rw index (IsRest-head i y ys xs h ∙ ap some own),
                  ap (λ m. m.inner_instruction_index) e,
                  ap (λ m. m.is_inner) e,
                ),
              )
          | inr later ↦ top_level_sound (suc i) ys xs r (IsRest-suc i y ys xs h) later
        ]

  inner_level_sound :
      (set : InnerInstructionSet) (j : ℕ) (ys : List RawInstruction) (r : ParsedInstructionMessage)
      → IsRest j ys set.instructions
      → Elem r (inner_level program_id t set.index j ys)
      → (r.instruction.program_id ≡ program_id) × IsInnerOf set r
  unfolding inner_level
  inner_level_sound set j [] r h m = absurd m
  inner_level_sound set j (y ∷ ys) r h m =
      elim (Elem-append_cases r (pick program_id t y set.index (some j) true)
        (inner_level program_id t set.index (suc j) ys) m) [
          | inl here ↦
              let (own, p, e) = pick_sound y set.index (some j) true r here in
              (
                p,
                (
                  ap (λ m. m.instruction_index) e,
                  ap (λ m. m.is_inner) e,
                  (
                    j,
                    ap (λ m. m.inner_instruction_index) e,
                    IsRest-head j y ys set.instructions h ∙ ap some own,
                  ),
                ),
              )
          | inr later ↦
              inner_level_sound set (suc j) ys r (IsRest-suc j y ys set.instructions h) later
        ]

  inner_sets_sound :
      (sets : List InnerInstructionSet) (r : ParsedInstructionMessage)
      → Elem r (inner_sets program_id t sets)
      → (r.instruction.program_id ≡ program_id)
        × ((set : InnerInstructionSet) × Elem set sets × IsInnerOf set r)
  unfolding inner_sets
  inner_sets_sound [] r m = absurd m
  inner_sets_sound (set ∷ sets) r m =
      elim (Elem-append_cases r (inner_level program_id t set.index 0 set.instructions)
        (inner_sets program_id t sets) m) [
          | inl here ↦
              let (p, q) =
                inner_level_sound set 0 set.instructions r (IsRest-self set.instructions) here in
              (p, (set, inl refl, q))
          | inr later ↦
              let (p, (found, at_, q)) = inner_sets_sound sets r later in (p, (found, inr at_, q))
        ]

  -- Every extracted message is of the program, and is labelled for what it is: it holds the
  -- undecoded top-level instruction at its index, with no inner index and not inner, or the one at
  -- its inner index in a set of inner instructions with its index, and inner.
  pub extract_sound :
      (r : ParsedInstructionMessage)
      → Elem r (extract_liquidity_book_instructions program_id t)
      → (r.instruction.program_id ≡ program_id)
        × (IsTop t.instructions r
            ⊎ ((set : InnerInstructionSet) × Elem set t.inner_instructions × IsInnerOf set r))
  unfolding extract_liquidity_book_instructions
  extract_sound r m =
      elim (Elem-append_cases r (top_level program_id t 0 t.instructions)
        (inner_sets program_id t t.inner_instructions) m) [
          | inl top ↦
              let (p, q) =
                top_level_sound 0 t.instructions t.instructions r (IsRest-self t.instructions)
                  top in
              (p, inl q)
          | inr inner ↦ let (p, q) = inner_sets_sound t.inner_instructions r inner in (p, inr q)
        ]
