-- ===== src/Scanner/Process/Stuck.antt =====
-- A queue that takes no jobs keeps the queueing loop turning.
use mathlib.Core.Option
use saros_dlmm_indexer.Base.{ℕ, zero, suc, ◌≡◌, ◌∙◌, refl, ap, true, false, none, List, ◌∷◌, map}
use saros_dlmm_indexer.Store.World.{ok, err, rpc_failed}
use saros_dlmm_indexer.Scanner.{Stored, Services, Scanner, oldest_first, is_pending}
use saros_dlmm_indexer.Scanner.Process.{
  batch_size, transaction_job, mark_added, queue_transaction_for_processing, process_loop,
  process_unprocessed_transactions,
}
use saros_dlmm_indexer.Scanner.Process.Steps.{process_runs, loop_batch}

module _ (services : Services) where
  refused :
      (ds : List Stored) (s : Scanner services)
      → services.add_bulk (map transaction_job ds) s.outside ≡ (err rpc_failed, s.outside)
      → queue_transaction_for_processing services ds s ≡ s
  unfolding queue_transaction_for_processing mark_added
  refused ds s h = ap (λ r. record s { outside = mark_added services ds r }) h

  loop_turns :
      (fuel : ℕ) (d : Stored) (ds : List Stored) (s : Scanner services)
      → services.find is_pending oldest_first batch_size s.outside ≡ ok (d ∷ ds)
      → services.add_bulk (map transaction_job (d ∷ ds)) s.outside ≡ (err rpc_failed, s.outside)
      → process_loop services fuel s ≡ none
  unfolding process_loop
  loop_turns zero d ds s found h = refl
  loop_turns (suc fuel) d ds s found h =
      loop_batch services fuel d ds s found
      ∙ ap (process_loop services fuel) (refused (d ∷ ds) s h)
      ∙ loop_turns fuel d ds s found h

  -- Where the queue throws at the jobs of the first batch and stays as it was, queueing that starts
  -- with a pending event never ends: no number of rounds is enough.
  pub process_unprocessed_transactions_never_ends :
      (fuel : ℕ) (d : Stored) (ds : List Stored) (s : Scanner services)
      → s.is_backward_scan_complete ≡ true
      → s.is_processing_queue ≡ false
      → services.find is_pending oldest_first batch_size s.outside ≡ ok (d ∷ ds)
      → services.add_bulk (map transaction_job (d ∷ ds)) s.outside ≡ (err rpc_failed, s.outside)
      → process_unprocessed_transactions services fuel s ≡ none
  process_unprocessed_transactions_never_ends fuel d ds s complete idle found h =
      process_runs services fuel s complete idle
      ∙ ap (Option.map (λ (t : Scanner services). record t { is_processing_queue = false }))
          (loop_turns fuel d ds (record s { is_processing_queue = true }) found h)
