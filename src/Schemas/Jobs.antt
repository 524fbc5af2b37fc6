-- ===== src/Schemas/Jobs.antt =====
-- types/indexer.types.ts: the data of a job, one liquidity book instruction of a transaction.
use saros_dlmm_indexer.Base.{ℕ, Bool, Option, List}
use saros_dlmm_indexer.Text.{Text}

-- The raw instruction as web3.js parses it; `data` is base58.
pub record PartiallyDecodedInstruction : Type 0 where
  pub program_id : Text
  pub accounts : List Text
  pub data_base58 : Text

pub record ParsedInstructionMessage : Type 0 where
  pub block_number : ℕ
  pub signature : Text
  pub instruction : PartiallyDecodedInstruction
  pub instruction_index : ℕ
  pub inner_instruction_index : Option ℕ
  pub is_inner : Bool
  pub block_time : Option ℕ
