-- ===== src/Transactions/Parser.antt =====
-- transaction-parser.service.ts: the liquidity book instructions of a transaction, top level first.
-- The transaction is as web3.js parses it; the program's address is a setting.
pub mod Extracted
pub mod Sound
use saros_dlmm_indexer.Base.{
  ℕ, suc, Bool, true, false, Option, none, some, List, [], ◌∷◌, ◌++◌, if◌then◌else◌,
}
use saros_dlmm_indexer.Text.{Text, eq_text}
use saros_dlmm_indexer.Schemas.{PartiallyDecodedInstruction, ParsedInstructionMessage}

-- An instruction that web3.js could parse has no `data`.
pub data RawInstruction : Type 0 where
  parsed : RawInstruction
  partially_decoded : PartiallyDecodedInstruction → RawInstruction

pub record InnerInstructionSet : Type 0 where
  pub index : ℕ
  pub instructions : List RawInstruction

pub record ParsedTransaction : Type 0 where
  pub signatures : List Text
  pub slot : ℕ
  pub block_time : Option ℕ
  pub instructions : List RawInstruction
  pub inner_instructions : List InnerInstructionSet

-- `signatures[0] || ''`
abbrev pub first_signature : List Text → Text
first_signature [] = []
first_signature (s ∷ ss) = s

-- `blockTime || 0`
abbrev pub time_or_zero : Option ℕ → ℕ
time_or_zero none = 0
time_or_zero (some t) = t

module _ (program_id : Text) (t : ParsedTransaction) where
  abbrev pub message : PartiallyDecodedInstruction → ℕ → Option ℕ → Bool → ParsedInstructionMessage
  message ix index inner is_inner = record {
    block_number = t.slot;
    signature = first_signature t.signatures;
    instruction = ix;
    instruction_index = index;
    inner_instruction_index = inner;
    is_inner = is_inner;
    block_time = some (time_or_zero t.block_time);
  }

  -- One pass of a loop: what `result.push` adds, if both `continue`s are passed.
  unfoldable pub pick : RawInstruction → ℕ → Option ℕ → Bool → List ParsedInstructionMessage
  pick parsed index inner is_inner = []
  pick (partially_decoded ix) index inner is_inner =
      if eq_text ix.program_id program_id then message ix index inner is_inner ∷ [] else []

  unfoldable pub top_level : ℕ → List RawInstruction → List ParsedInstructionMessage
  unfolding pick
  top_level i [] = []
  top_level i (x ∷ xs) = pick x i none false ++ top_level (suc i) xs

  unfoldable pub inner_level : ℕ → ℕ → List RawInstruction → List ParsedInstructionMessage
  unfolding pick
  inner_level index j [] = []
  inner_level index j (x ∷ xs) = pick x index (some j) true ++ inner_level index (suc j) xs

  unfoldable pub inner_sets : List InnerInstructionSet → List ParsedInstructionMessage
  unfolding inner_level
  inner_sets [] = []
  inner_sets (set ∷ sets) = inner_level set.index 0 set.instructions ++ inner_sets sets

  unfoldable pub extract_liquidity_book_instructions : List ParsedInstructionMessage
  unfolding top_level inner_sets
  extract_liquidity_book_instructions =
      top_level 0 t.instructions ++ inner_sets t.inner_instructions
