-- ===== src/Scanner/Startup.antt =====
-- `onModuleInit`, and what the service can do after it.
use mathlib.Core.Option
use saros_dlmm_indexer.Base.{
  ℕ, zero, suc, ◌≡◌, ◌∙◌, refl, sym, ap, subst, ⊤, Bool, true, false, Option, none, some, List, [],
  ◌∷◌, if◌then◌else◌,
}
use saros_dlmm_indexer.Text.{Text}
use saros_dlmm_indexer.Store.World.{Result, ok, err}
use saros_dlmm_indexer.Scanner.{
  ConfirmedSignatureInfo, Node, Stored, Services, Scanner, oldest_first, is_pending,
}
use saros_dlmm_indexer.Scanner.Insert.{
  insert_batch_transaction_event, get_oldest_transaction_local, get_newest_transaction_local,
}
use saros_dlmm_indexer.Scanner.Backward.{
  set_complete, backward_from, run_backward_scan, check_genesis_reached, initialize_scanner,
}
use saros_dlmm_indexer.Scanner.Backward.Rounds.{loop_done}
use saros_dlmm_indexer.Scanner.Forward.{page_until, insert_page, scan_from, scan_forwards}
use saros_dlmm_indexer.Scanner.Process.{
  batch_size, queue_transaction_for_processing, process_loop, process_unprocessed_transactions,
  start_scanning,
}

module _ (services : Services) where
  unfoldable pub on_module_init : services.State → Scanner services
  on_module_init o = record {
    is_backward_scan_complete = true;
    is_processing_queue = false;
    startup_complete = false;
    outside = o;
  }

  -- What a caller or a timer may run, to its end.
  pub data Step : Scanner services → Scanner services → Type 0 where
    initialize :
        (node : Node) (nodes : List Node) {s s' : Scanner services}
        → initialize_scanner services node nodes s ≡ some s'
        → Step s s'
    forwards : (node : Node) (s : Scanner services) → Step s (scan_forwards services node s)
    process :
        (fuel : ℕ) {s s' : Scanner services}
        → process_unprocessed_transactions services fuel s ≡ some s'
        → Step s s'
    start :
        (node : Node) (fuel : ℕ) {s s' : Scanner services}
        → start_scanning services node fuel s ≡ some s'
        → Step s s'

  pub data Reach (s : Scanner services) : Scanner services → Type 0 where
    here : Reach s s
    next : {t u : Scanner services} → Reach s t → Step t u → Reach s u

  abbrev IsWaiting : Scanner services → Type 0
  IsWaiting s = (s.is_backward_scan_complete ≡ true) × (s.startup_complete ≡ false)

  complete_already :
      (s : Scanner services) → s.is_backward_scan_complete ≡ true → set_complete services s ≡ s
  complete_already s h = ap (λ b. record s { is_backward_scan_complete = b }) (sym h)

  backward_idle :
      (nodes : List Node) (r : Result (Option Text)) (s : Scanner services)
      → s.is_backward_scan_complete ≡ true
      → Option.map (λ (t : Result ⊤ × Scanner services). t.1) (backward_from services nodes r s)
        ≡ some s
  unfolding backward_from
  backward_idle nodes (err x) s h = refl
  backward_idle nodes (ok before) s h =
      ap
        (λ o.
          Option.map (λ (t : Result ⊤ × Scanner services). t.1)
            (Option.map (λ (t : Scanner services). (ok tt, set_complete services t)) o))
        (loop_done services nodes before s h)
      ∙ ap some (complete_already s h)

  initialize_scanner_idle :
      (node : Node) (nodes : List Node) (s : Scanner services)
      → s.is_backward_scan_complete ≡ true
      → initialize_scanner services node nodes s ≡ some s
  unfolding initialize_scanner run_backward_scan
  initialize_scanner_idle node nodes s h = by_answer (check_genesis_reached services node s) refl
    where
      by_answer :
          (r : Result Bool)
          → check_genesis_reached services node s ≡ r
          → initialize_scanner services node nodes s ≡ some s
      by_answer (err x) e = rw (e, initialize_scanner) refl
      by_answer (ok true) e = rw (e, initialize_scanner) (ap some (complete_already s h))
      by_answer (ok false) e =
          rw (e, initialize_scanner)
            (backward_idle nodes (get_oldest_transaction_local services s) s h)

  else_of : (b : Bool) (x y : Option (Scanner services)) → b ≡ false → (if b then x else y) ≡ y
  else_of true x y h = cc
  else_of false x y h = refl

  start_scanning_idle :
      (node : Node) (fuel : ℕ) (s : Scanner services)
      → s.startup_complete ≡ false
      → start_scanning services node fuel s ≡ some s
  unfolding start_scanning
  start_scanning_idle node fuel s h = else_of s.startup_complete _ (some s) h

  page-IsWaiting :
      (r : Result (List ConfirmedSignatureInfo)) (s : Scanner services)
      → IsWaiting s
      → IsWaiting (insert_page services r s)
  unfolding insert_page insert_batch_transaction_event
  page-IsWaiting (err x) s h = h
  page-IsWaiting (ok []) s h = h
  page-IsWaiting (ok (g ∷ gs)) s h = h

  from-IsWaiting :
      (node : Node) (r : Result (Option Text)) (s : Scanner services)
      → IsWaiting s
      → IsWaiting (scan_from services node s r)
  unfolding scan_from
  from-IsWaiting node (err x) s h = h
  from-IsWaiting node (ok none) s h = h
  from-IsWaiting node (ok (some c)) s h = page-IsWaiting (node (page_until c)) s h

  -- A state that is there, if any, waits.
  abbrev Waits : Option (Scanner services) → Type 0
  Waits none = Unit
  Waits (some s) = IsWaiting s

  loop-Waits :
      (fuel : ℕ) (s : Scanner services) → IsWaiting s → Waits (process_loop services fuel s)
  unfolding process_loop queue_transaction_for_processing
  loop-Waits zero s h = tt
  loop-Waits (suc fuel) s h =
      by_batch (λ t k. loop-Waits fuel t k)
        (services.find is_pending oldest_first batch_size s.outside)
    where
      by_batch :
          ((t : Scanner services) → IsWaiting t → Waits (process_loop services fuel t))
          → (r : Result (List Stored))
          → Waits (elim r [
            | err x ↦ some s
            | ok [] ↦ some s
            | ok (d ∷ ds) ↦
                process_loop services fuel (queue_transaction_for_processing services (d ∷ ds) s)
          ])
      by_batch rest (err x) = h
      by_batch rest (ok []) = h
      by_batch rest (ok (d ∷ ds)) = rest (queue_transaction_for_processing services (d ∷ ds) s) h

  if-Waits :
      (b : Bool) (x y : Option (Scanner services)) → Waits x → Waits y → Waits (if b then x else y)
  if-Waits true x y h k = h
  if-Waits false x y h k = k

  map-Waits :
      (o : Option (Scanner services))
      → Waits o
      → Waits (Option.map (λ (t : Scanner services). record t { is_processing_queue = false }) o)
  map-Waits none h = tt
  map-Waits (some s) h = h

  process-Waits :
      (fuel : ℕ) (s : Scanner services)
      → IsWaiting s
      → Waits (process_unprocessed_transactions services fuel s)
  unfolding process_unprocessed_transactions
  process-Waits fuel s h =
      let run = map-Waits _ (loop-Waits fuel (record s { is_processing_queue = true }) h) in
      if-Waits s.is_backward_scan_complete _ (some s)
        (if-Waits s.is_processing_queue (some s) _ h run) h

  Step-IsWaiting : {s t : Scanner services} → Step s t → IsWaiting s → IsWaiting t
  unfolding scan_forwards
  Step-IsWaiting {s} (initialize node nodes e) h =
      subst Waits (sym (initialize_scanner_idle node nodes s h.0) ∙ e) h
  Step-IsWaiting (forwards node s) h =
      from-IsWaiting node (get_newest_transaction_local services s) s h
  Step-IsWaiting {s} (process fuel e) h = subst Waits e (process-Waits fuel s h)
  Step-IsWaiting {s} (start node fuel e) h =
      subst Waits (sym (start_scanning_idle node fuel s h.1) ∙ e) h

  Reach-IsWaiting : {s t : Scanner services} → IsWaiting s → Reach s t → IsWaiting t
  Reach-IsWaiting h here = h
  Reach-IsWaiting h (next r st) = Step-IsWaiting st (Reach-IsWaiting h r)

  -- Whatever has run since `onModuleInit`.
  pub reached_idle :
      (o : services.State) (s : Scanner services) (node : Node) (nodes : List Node) (fuel : ℕ)
      → Reach (on_module_init o) s
      → (start_scanning services node fuel s ≡ some s)
        × (initialize_scanner services node nodes s ≡ some s)
  unfolding on_module_init
  reached_idle o s node nodes fuel r =
      let (complete, not_started) = Reach-IsWaiting (refl, refl) r in
      (start_scanning_idle node fuel s not_started, initialize_scanner_idle node nodes s complete)
