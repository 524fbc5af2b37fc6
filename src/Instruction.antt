-- ===== src/Instruction.antt =====
-- modules/indexer/services/instruction.service.ts: each instruction is to be processed once. Its
-- id is looked up, and its record inserted, before a processor does anything else.
pub mod Ids
pub mod Dedup
pub mod Race
use saros_dlmm_indexer.Base.{ℕ, ◌*◌, Bool, true, false, Option, none, some, zero, suc}
use saros_dlmm_indexer.Text.{Text, codes, eq_text, to_lower_case}
use saros_dlmm_indexer.Text.Decimal.{nat_to_text}
use saros_dlmm_indexer.Text.Join.{join}
use saros_dlmm_indexer.Schemas.{Instruction, ParsedInstructionMessage}
use saros_dlmm_indexer.Store.World.{
  Db, World, Action, Result, ok, err, ◌>>=◌, ◌>>◌, pure, throw, or_throw, gets, duplicate_key,
}

-- `enum ProcessorName` (types/enums.ts)
pub data ProcessorName : Type 0 where
  create_position close_position increase_position decrease_position : ProcessorName
  swap quote_asset composition_fees update_pair_static_fee_parameters : ProcessorName

abbrev pub name_text : ProcessorName → Text
name_text create_position = codes "CreatePositionProcessor"
name_text close_position = codes "ClosePositionProcessor"
name_text increase_position = codes "IncreasePositionProcessor"
name_text decrease_position = codes "DecreasePositionProcessor"
name_text swap = codes "SwapProcessor"
name_text quote_asset = codes "QuoteAssetProcessor"
name_text composition_fees = codes "CompositionFeesProcessor"
name_text update_pair_static_fee_parameters = codes "UpdatePairStaticFeeParametersProcessor"

-- `innerInstructionIndex ?? '*'`
abbrev pub inner_index_text : Option ℕ → Text
inner_index_text none = codes "*"
inner_index_text (some i) = nat_to_text i

-- `blockTime ? new Date(blockTime * 1000) : null`: the time 0 counts as none.
abbrev pub block_date : Option ℕ → Option ℕ
block_date none = none
block_date (some zero) = none
block_date (some (suc t)) = some (suc t * 1000)

unfoldable pub generate_instruction_id : ℕ → Text → Text → ℕ → Option ℕ → Text
generate_instruction_id block_number signature processor_name index inner_index =
    join (nat_to_text block_number) (
      join signature (
        join (to_lower_case processor_name)
          (join (nat_to_text index) (inner_index_text inner_index))))

-- The id of a job's instruction for one processor.
abbrev pub id_of : ParsedInstructionMessage → ProcessorName → Text
id_of m p =
    generate_instruction_id m.block_number m.signature (name_text p) m.instruction_index
      m.inner_instruction_index

-- The record that `insertInstruction` creates; its processor name is in lower case.
abbrev pub record_of : ParsedInstructionMessage → ProcessorName → Instruction
record_of m p = record {
  id = id_of m p;
  processor_name = to_lower_case (name_text p);
  block_number = m.block_number;
  signature = m.signature;
  index = m.instruction_index;
  inner_index = m.inner_instruction_index;
  is_inner = m.is_inner;
  block_time = block_date m.block_time;
}

-- What `checkAndInsertInstruction` returns.
pub data Check : Type 0 where
  already_processed : Check
  inserted : Instruction → Check

module _ {db : Db} where
  unfoldable pub is_instruction_processed : Text → Action db Bool
  is_instruction_processed id =
      gets (λ w. db.instructions.exists_where (λ d. eq_text d.id id) w.instructions)

  unfoldable pub store_instruction :
      Instruction → World db → Option (db.instructions.State) → Result Instruction × World db
  store_instruction d w none = (err duplicate_key, w)
  store_instruction d w (some s) = (ok d, record w { instructions = s })

  unfoldable pub insert_instruction :
      ParsedInstructionMessage → ProcessorName → Action db Instruction
  unfolding store_instruction
  insert_instruction m p w =
      store_instruction (record_of m p) w (db.instructions.create (record_of m p) w.instructions)

  unfoldable pub insert_unless_processed :
      ParsedInstructionMessage → ProcessorName → Bool → Action db Check
  unfolding insert_instruction
  insert_unless_processed m p true = pure already_processed
  insert_unless_processed m p false = do d ← insert_instruction m p; pure (inserted d)

  unfoldable pub check_and_insert_instruction :
      ParsedInstructionMessage → ProcessorName → Action db Check
  unfolding is_instruction_processed insert_unless_processed
  check_and_insert_instruction m p = do
    seen ← is_instruction_processed (id_of m p)
    insert_unless_processed m p seen
