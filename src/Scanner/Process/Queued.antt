-- ===== src/Scanner/Process/Queued.antt =====
-- The queueing loop ends, and puts every pending event on the queue, in the order of block and _id.
use mathlib.Core.Option
use mathlib.Core.List.{append-nil, map-append}
use saros_dlmm_indexer.Base.{
  ℕ, zero, suc, ◌<◌, ◌≡◌, ◌∙◌, refl, sym, ap, subst, ⊤, true, false, Option, some, List, [], ◌∷◌,
  ◌++◌, map, length, take, drop, take-drop, drop_le, append_assoc, arith,
}
use saros_dlmm_indexer.Store.World.{Result, ok, err}
use saros_dlmm_indexer.Scanner.{Stored, Services, Scanner, oldest_first, is_pending}
use saros_dlmm_indexer.Scanner.Order.{sort, filter, filter-sort}
use saros_dlmm_indexer.Scanner.Model.{Working, patch}
use saros_dlmm_indexer.Scanner.Process.{
  batch_size, transaction_job, set_queued, mark_added, queue_transaction_for_processing,
  process_loop, process_unprocessed_transactions,
}
use saros_dlmm_indexer.Scanner.Process.Pending.{
  oldest_first_trans, oldest_first_total, oids, IsDistinct, unmarked, filter-patch, filter-taken,
}
use saros_dlmm_indexer.Scanner.Process.Steps.{process_runs, loop_end, loop_batch}

module _ (services : Services) (working : Working services) where
  -- What is still to be put on the queue, in the order of block and _id.
  abbrev pub pending : services.State → List Stored
  pending o = sort oldest_first (filter is_pending (working.docs o))

  mark_added-of-ok :
      (ds : List Stored) (r : Result ⊤ × services.State)
      → r.0 ≡ ok tt
      → mark_added services ds r ≡ (services.update_many (oids ds) set_queued r.1).1
  unfolding mark_added
  mark_added-of-ok ds (ok u, o) h = refl
  mark_added-of-ok ds (err x, o) h = cc

  queue_batch :
      (batch later : List Stored) (s : Scanner services)
      → pending s.outside ≡ batch ++ later
      → IsDistinct (oids (batch ++ later))
      → let s' = queue_transaction_for_processing services batch s in
        (pending s'.outside ≡ later)
        × (working.jobs s'.outside ≡ working.jobs s.outside ++ map transaction_job batch)
  unfolding queue_transaction_for_processing
  queue_batch batch later s p distinct =
      let (accepted, kept, added) = working.add_bulk_lem (map transaction_job batch) s.outside in
      let o = (services.add_bulk (map transaction_job batch) s.outside).1 in
      let (marked, same) = working.update_many_lem (oids batch) set_queued o in
      let is_marked =
        mark_added-of-ok batch (services.add_bulk (map transaction_job batch) s.outside) accepted in
      (
        ap pending is_marked
            ∙ ap (λ l. sort oldest_first (filter is_pending l)) marked
            ∙ ap
                (λ l. sort oldest_first (filter is_pending (map (patch (oids batch) set_queued) l)))
                kept
            ∙ ap (sort oldest_first) (filter-patch (oids batch) (working.docs s.outside))
            ∙ sym (
                filter-sort oldest_first oldest_first_trans oldest_first_total
                  (unmarked (oids batch)) (filter is_pending (working.docs s.outside)))
            ∙ ap (filter (unmarked (oids batch))) p
            ∙ filter-taken batch later distinct,
        ap working.jobs is_marked ∙ same ∙ added,
      )

  -- What the end of a loop promises about the documents that were pending.
  abbrev Queues : Option (Scanner services) → Scanner services → List Stored → Type 0
  Queues r s ds =
      (s' : Scanner services) × (r ≡ some s')
      × (pending s'.outside ≡ [])
      × (working.jobs s'.outside ≡ working.jobs s.outside ++ map transaction_job ds)

  IsDistinct-drop :
      (n : ℕ) (ds : List Stored) → IsDistinct (oids ds) → IsDistinct (oids (drop n ds))
  IsDistinct-drop zero ds h = h
  IsDistinct-drop (suc n) [] h = h
  IsDistinct-drop (suc n) (d ∷ ds) (_, h) = IsDistinct-drop n ds h

  process_loop-Queues :
      (fuel : ℕ) (ds : List Stored) (s : Scanner services)
      → pending s.outside ≡ ds
      → IsDistinct (oids ds)
      → length ds < fuel
      → Queues (process_loop services fuel s) s ds
  process_loop-Queues zero ds s p distinct lt = absurd (omega (arith, lt))
  process_loop-Queues (suc fuel) [] s p distinct lt = (
    s,
    loop_end services fuel s (
        working.find_lem is_pending oldest_first batch_size s.outside
        ∙ ap (λ l. ok (take batch_size l)) p),
    p,
    sym (append-nil (working.jobs s.outside)),
  )
  process_loop-Queues (suc fuel) (d ∷ ds) s p distinct lt =
      let batch = d ∷ take 99 ds in
      let later = drop 99 ds in
      let whole : batch ++ later ≡ d ∷ ds = take-drop 100 (d ∷ ds) in
      let next = loop_batch services fuel d (take 99 ds) s (
        working.find_lem is_pending oldest_first batch_size s.outside
        ∙ ap (λ l. ok (take batch_size l)) p) in
      let (left, added) =
        queue_batch batch later s (p ∙ sym whole)
          (subst (λ l. IsDistinct (oids l)) (sym whole) distinct) in
      let (s2, e, none_left, all_added) =
        process_loop-Queues fuel later (queue_transaction_for_processing services batch s) left
          (IsDistinct-drop 99 ds distinct.1) (omega (arith, lt, drop_le 99 ds)) in
      (
        s2,
        next ∙ e,
        none_left,
        all_added
            ∙ ap (λ j. j ++ map transaction_job later) added
            ∙ append_assoc (working.jobs s.outside) (map transaction_job batch)
                (map transaction_job later)
            ∙ ap (λ j. working.jobs s.outside ++ j)
                (sym (map-append transaction_job batch later) ∙ ap (map transaction_job) whole),
      )

  -- Where the backward scan is complete, no queueing runs, the `_id`s of the pending events are
  -- distinct, and neither the collection nor the queue fails, queueing ends: it takes at most one
  -- round more than there are pending events. Each of these is put on the queue once, in the order of
  -- block and `_id`, none is pending afterwards, and queueing may run again.
  pub process_unprocessed_transactions_queues :
      (fuel : ℕ) (s : Scanner services)
      → s.is_backward_scan_complete ≡ true
      → s.is_processing_queue ≡ false
      → IsDistinct (oids (pending s.outside))
      → length (pending s.outside) < fuel
      → (s' : Scanner services) × (process_unprocessed_transactions services fuel s ≡ some s')
        × (pending s'.outside ≡ [])
        × (working.jobs s'.outside
            ≡ working.jobs s.outside ++ map transaction_job (pending s.outside))
        × (s'.is_processing_queue ≡ false)
  process_unprocessed_transactions_queues fuel s complete idle distinct enough_fuel =
      let (s', e, none_left, added) =
        process_loop-Queues fuel (pending s.outside) (record s { is_processing_queue = true }) refl
          distinct enough_fuel in
      (
        record s' { is_processing_queue = false },
        process_runs services fuel s complete idle
            ∙ ap (Option.map (λ (t : Scanner services). record t { is_processing_queue = false }))
                e,
        none_left,
        added,
        refl,
      )
