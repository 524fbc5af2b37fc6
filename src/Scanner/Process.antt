-- ===== src/Scanner/Process.antt =====
-- `processUnprocessedTransactions`, `queueTransactionForProcessing` and `startScanning`. The loop is
-- on fuel: `none` where it runs out.

pub mod Pending
pub mod Steps
pub mod Queued
pub mod Stuck
use mathlib.Core.Option
use saros_dlmm_indexer.Base.{
  ℕ, zero, suc, ⊤, true, false, Option, none, some, List, [], ◌∷◌, map, if◌then◌else◌,
}
use saros_dlmm_indexer.Schemas.{TransactionEvent}
use saros_dlmm_indexer.Store.World.{Result, ok, err}
use saros_dlmm_indexer.Scanner.{
  Node, Stored, ProcessTransaction, Services, Scanner, oldest_first, is_pending,
}
use saros_dlmm_indexer.Scanner.Forward.{scan_forwards}

abbrev pub batch_size : ℕ
batch_size = 100

unfoldable pub transaction_job : Stored → ProcessTransaction
transaction_job d = record {
  signature = d.event.signature;
  block_number = d.event.block_number;
  block_time = d.event.block_time;
}

-- `{ queued: true }`
unfoldable pub set_queued : TransactionEvent → TransactionEvent
set_queued e = record e { queued = true }

module _ (services : Services) where
  unfoldable pub mark_added : List Stored → Result ⊤ × services.State → services.State
  mark_added ds (err x, o) = o
  mark_added ds (ok tt, o) = (services.update_many (map (λ d. d.oid) ds) set_queued o).1

  -- What is thrown is logged, and the caller goes on.
  unfoldable pub queue_transaction_for_processing :
      List Stored → Scanner services → Scanner services
  unfolding mark_added
  queue_transaction_for_processing ds s = record s {
    outside = mark_added ds (services.add_bulk (map transaction_job ds) s.outside);
  }

  -- `while (hasMore)`; a query that throws ends it.
  unfoldable pub process_loop : ℕ → Scanner services → Option (Scanner services)
  process_loop zero s = none
  process_loop (suc fuel) s = elim (services.find is_pending oldest_first batch_size s.outside) [
    | err x ↦ some s
    | ok [] ↦ some s
    | ok (d ∷ ds) ↦ process_loop fuel (queue_transaction_for_processing (d ∷ ds) s)
  ]

  unfoldable pub process_unprocessed_transactions : ℕ → Scanner services → Option (Scanner services)
  process_unprocessed_transactions fuel s =
      if s.is_backward_scan_complete
      then (if s.is_processing_queue
          then some s
          else Option.map (λ (s' : Scanner services). record s' { is_processing_queue = false })
              (process_loop fuel (record s { is_processing_queue = true })))
      else some s

  -- The trigger by hand.
  unfoldable pub start_scanning : Node → ℕ → Scanner services → Option (Scanner services)
  unfolding process_unprocessed_transactions
  start_scanning node fuel s =
      if s.startup_complete
      then (let s' = scan_forwards services node s in
          if s'.is_backward_scan_complete
          then process_unprocessed_transactions fuel s'
          else some s')
      else some s
