-- ===== src/DeadLetters.antt =====
-- dlq.processor.ts and schemas/dlq-event.schema.ts: an instruction that could not be routed is to be
-- stored with its error. mongoose keeps the paths of the schema alone, and validates on saving.
pub mod Refused
use mathlib.Core.Option
use saros_dlmm_indexer.Base.{ℕ, Option, none, some}
use saros_dlmm_indexer.Text.{Text}
use saros_dlmm_indexer.Schemas.{ParsedInstructionMessage}
use saros_dlmm_indexer.Store.World.{Result}

-- `job.data`, where anything may be missing.
pub record DlqJob : Type 0 where
  pub signature : Option Text
  pub block_number : Option ℕ
  pub block_time : Option ℕ
  pub instruction_index : Option ℕ
  pub instruction_name : Option Text
  pub instruction_data : Option Text
  pub error_message : Option Text

-- The paths of the schema, as a document that is not saved yet has them.
pub record DlqEvent : Type 0 where
  pub block_number : Option ℕ
  pub signature : Option Text
  pub block_time : Option ℕ
  pub instruction_index : Option ℕ
  pub instruction_name : Option Text
  pub instruction_data : Option Text
  pub error_message : Option Text

-- `new this.dlqEventModel({...})`. Of its paths only `signature` and `blockNumber` are spelled as in
-- the schema; `block_time`, `instruction_index`, `instruction_name`, `instruction_data` and
-- `error_message` are none of the schema's, and are dropped.
unfoldable pub new_dlq_event : DlqJob → DlqEvent
new_dlq_event j = record {
  block_number = j.block_number;
  signature = j.signature;
  block_time = none;
  instruction_index = none;
  instruction_name = none;
  instruction_data = none;
  error_message = none;
}

-- What the transaction processor's `catch` adds to the queue: the instruction and the error.
unfoldable pub dead_letter_of : ParsedInstructionMessage → Text → DlqJob
dead_letter_of m message = record {
  signature = some m.signature;
  block_number = some m.block_number;
  block_time = m.block_time;
  instruction_index = some m.instruction_index;
  instruction_name = none;
  instruction_data = none;
  error_message = some message;
}

-- The collection, with `save` of a new document.
pub record DlqModel : Type 1 where
  pub State : Type 0
  pub save : DlqEvent → State → Result Unit × State

module _ (model : DlqModel) where
  -- `process(job)`; what `save` throws is thrown again.
  unfoldable pub process : DlqJob → model.State → Result Unit × model.State
  unfolding new_dlq_event
  process j s = model.save (new_dlq_event j) s
