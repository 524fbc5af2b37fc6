-- ===== src/Schemas/Events.antt =====
-- transaction-event.schema.ts: a signature of the program that was found on the chain, with its way
-- through the queue. No index makes the signatures unique.
use saros_dlmm_indexer.Base.{ℕ, Bool, Option}
use saros_dlmm_indexer.Text.{Text}

pub record TransactionEvent : Type 0 where
  pub block_number : ℕ
  pub signature : Text
  pub block_time : Option ℕ
  pub processed : Bool
  pub queued : Bool
