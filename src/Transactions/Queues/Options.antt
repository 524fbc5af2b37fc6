-- ===== src/Transactions/Queues/Options.antt =====
-- modules/queue/queue.module.ts: the queues that are registered, with the options of their jobs. BullMQ
-- runs a job that throws again until it has had all its attempts.
use saros_dlmm_indexer.Base.{ℕ, Option, none, some}
use saros_dlmm_indexer.Transactions.Queues.{
  QueueName, transaction_scanner, instruction_processor, dlq_processor,
}

-- Milliseconds.
pub data Backoff : Type 0 where
  exponential fixed : ℕ → Backoff

-- `defaultJobOptions`
pub record JobOptions : Type 0 where
  pub attempts : ℕ
  pub backoff : Backoff

abbrev pub retried : JobOptions
retried = record { attempts = 3; backoff = exponential 1000 }

-- `registerQueue`: none where the queue is not registered.
unfoldable pub registered : QueueName → Option JobOptions
registered transaction_scanner = some (record { attempts = 3; backoff = exponential 5000 })
registered instruction_processor = none
registered dlq_processor = some (record { attempts = 1; backoff = fixed 5000 })
registered _ = some retried
