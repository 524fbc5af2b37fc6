-- ===== src/Scanner/Process/Steps.antt =====
-- The queueing, one round at a time.
use mathlib.Core.Option
use saros_dlmm_indexer.Base.{
  ℕ, suc, ◌≡◌, ◌∙◌, refl, ap, true, false, some, List, [], ◌∷◌, if◌then◌else◌,
}
use saros_dlmm_indexer.Store.World.{ok}
use saros_dlmm_indexer.Scanner.{Stored, Services, Scanner, oldest_first, is_pending}
use saros_dlmm_indexer.Scanner.Process.{
  batch_size, queue_transaction_for_processing, process_loop, process_unprocessed_transactions,
}

module _ (services : Services) where
  pub process_runs :
      (fuel : ℕ) (s : Scanner services)
      → s.is_backward_scan_complete ≡ true
      → s.is_processing_queue ≡ false
      → process_unprocessed_transactions services fuel s
        ≡ Option.map
            (λ (t : Scanner services). record t { is_processing_queue = false })
            (process_loop services fuel (record s { is_processing_queue = true }))
  unfolding process_unprocessed_transactions
  process_runs fuel s complete idle =
      let run =
        Option.map (λ (t : Scanner services). record t { is_processing_queue = false })
          (process_loop services fuel (record s { is_processing_queue = true })) in
      ap (λ b. if b then (if s.is_processing_queue then some s else run) else some s) complete
      ∙ ap (λ b. if b then some s else run) idle

  pub loop_end :
      (fuel : ℕ) (s : Scanner services)
      → services.find is_pending oldest_first batch_size s.outside ≡ ok []
      → process_loop services (suc fuel) s ≡ some s
  unfolding process_loop
  loop_end fuel s h = rw (h, process_loop) refl

  pub loop_batch :
      (fuel : ℕ) (d : Stored) (ds : List Stored) (s : Scanner services)
      → services.find is_pending oldest_first batch_size s.outside ≡ ok (d ∷ ds)
      → process_loop services (suc fuel) s
        ≡ process_loop services fuel (queue_transaction_for_processing services (d ∷ ds) s)
  unfolding process_loop
  loop_batch fuel d ds s h = rw (h, process_loop) refl
