-- ===== src/Schemas/Records.antt =====
-- instruction.schema.ts: the record that marks an instruction as processed; types/enums.ts.
use saros_dlmm_indexer.Base.{ℕ, Bool, Option}
use saros_dlmm_indexer.Text.{Text}

pub record Instruction : Type 0 where
  pub id : Text
  pub processor_name : Text
  pub block_number : ℕ
  pub signature : Text
  pub index : ℕ
  pub inner_index : Option ℕ
  pub is_inner : Bool
  pub block_time : Option ℕ

abbrev pub instruction_key : Instruction → Text
instruction_key d = d.id
