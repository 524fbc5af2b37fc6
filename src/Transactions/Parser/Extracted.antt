-- ===== src/Transactions/Parser/Extracted.antt =====
-- Which instructions are extracted, and how they are labelled.
use saros_dlmm_indexer.Base.{
  ℕ, zero, suc, ◌+◌, ◌≡◌, refl, inl, inr, Bool, true, false, Option, none, some, List, [], ◌∷◌,
  arith, get_elem?, ap, Elem, Elem-append_left, Elem-append_right,
}
use saros_dlmm_indexer.Text.{Text, eq_text_iff}
use saros_dlmm_indexer.Schemas.{PartiallyDecodedInstruction}
use saros_dlmm_indexer.Transactions.Parser.{
  RawInstruction, parsed, partially_decoded, InnerInstructionSet, ParsedTransaction, message, pick,
  top_level, inner_level, inner_sets, extract_liquidity_book_instructions,
}

module _ (program_id : Text) (t : ParsedTransaction) where
  -- A pass of the loop keeps exactly the program's undecoded instructions.
  pick_complete :
      (x : RawInstruction) (ix : PartiallyDecodedInstruction) (n m : ℕ) (inner inner' : Option ℕ)
      (b : Bool)
      → some x ≡ some (partially_decoded ix)
      → n ≡ m
      → inner' ≡ inner
      → ix.program_id ≡ program_id
      → Elem (message program_id t ix n inner' b) (pick program_id t x m inner b)
  unfolding pick
  pick_complete parsed ix n m inner inner' b h e e' p = cc
  pick_complete (partially_decoded y) ix n m inner inner' b h e e' p =
      rw ((eq_text_iff y.program_id program_id).1 (cc)) (inl (cc))

  top_level_complete :
      (i k n : ℕ) (xs : List RawInstruction) (ix : PartiallyDecodedInstruction)
      → get_elem? xs k ≡ some (partially_decoded ix)
      → n ≡ k + i
      → ix.program_id ≡ program_id
      → Elem (message program_id t ix n none false) (top_level program_id t i xs)
  unfolding top_level
  top_level_complete i k n [] ix h e p = cc
  top_level_complete i zero n (x ∷ xs) ix h e p =
      Elem-append_left _ (pick program_id t x i none false) (top_level program_id t (suc i) xs)
        (pick_complete x ix n i none none false h (omega arith) refl p)
  top_level_complete i (suc k) n (x ∷ xs) ix h e p =
      Elem-append_right _ (pick program_id t x i none false) (top_level program_id t (suc i) xs)
        (top_level_complete (suc i) k n xs ix h (omega arith) p)

  inner_level_complete :
      (index j k n : ℕ) (xs : List RawInstruction) (ix : PartiallyDecodedInstruction)
      → get_elem? xs k ≡ some (partially_decoded ix)
      → n ≡ k + j
      → ix.program_id ≡ program_id
      → Elem (message program_id t ix index (some n) true) (inner_level program_id t index j xs)
  unfolding inner_level
  inner_level_complete index j k n [] ix h e p = cc
  inner_level_complete index j zero n (x ∷ xs) ix h e p =
      Elem-append_left _ (pick program_id t x index (some j) true)
        (inner_level program_id t index (suc j) xs)
        (pick_complete x ix index index (some j) (some n) true h refl (ap some (omega arith)) p)
  inner_level_complete index j (suc k) n (x ∷ xs) ix h e p =
      Elem-append_right _ (pick program_id t x index (some j) true)
        (inner_level program_id t index (suc j) xs)
        (inner_level_complete index (suc j) k n xs ix h (omega arith) p)

  inner_sets_complete :
      (sets : List InnerInstructionSet) (set : InnerInstructionSet) (k : ℕ)
      (ix : PartiallyDecodedInstruction)
      → Elem set sets
      → get_elem? set.instructions k ≡ some (partially_decoded ix)
      → ix.program_id ≡ program_id
      → Elem (message program_id t ix set.index (some k) true) (inner_sets program_id t sets)
  unfolding inner_sets
  inner_sets_complete [] set k ix m h p = absurd m
  inner_sets_complete (s ∷ sets) set k ix (inl e) h p =
      Elem-append_left _ (inner_level program_id t s.index 0 s.instructions)
        (inner_sets program_id t sets)
        (rw e (inner_level_complete s.index 0 k k s.instructions ix (rw e at h) (omega arith) p))
  inner_sets_complete (s ∷ sets) set k ix (inr m) h p =
      Elem-append_right _ (inner_level program_id t s.index 0 s.instructions)
        (inner_sets program_id t sets) (inner_sets_complete sets set k ix m h p)

  -- An undecoded instruction of the program at the top level is extracted, with its index, no inner
  -- index, and as not inner.
  pub extract_complete_top :
      (k : ℕ) (ix : PartiallyDecodedInstruction)
      → get_elem? t.instructions k ≡ some (partially_decoded ix)
      → ix.program_id ≡ program_id
      → Elem
          (message program_id t ix k none false)
          (extract_liquidity_book_instructions program_id t)
  unfolding extract_liquidity_book_instructions
  extract_complete_top k ix h p =
      Elem-append_left _ (top_level program_id t 0 t.instructions)
        (inner_sets program_id t t.inner_instructions)
        (top_level_complete 0 k k t.instructions ix h (omega arith) p)

  -- An undecoded instruction of the program in a set of inner instructions is extracted, with the
  -- set's index, its own index in the set, and as inner.
  pub extract_complete_inner :
      (set : InnerInstructionSet) (k : ℕ) (ix : PartiallyDecodedInstruction)
      → Elem set t.inner_instructions
      → get_elem? set.instructions k ≡ some (partially_decoded ix)
      → ix.program_id ≡ program_id
      → Elem
          (message program_id t ix set.index (some k) true)
          (extract_liquidity_book_instructions program_id t)
  unfolding extract_liquidity_book_instructions
  extract_complete_inner set k ix m h p =
      Elem-append_right _ (top_level program_id t 0 t.instructions)
        (inner_sets program_id t t.inner_instructions)
        (inner_sets_complete t.inner_instructions set k ix m h p)
