-- ===== src/Tests/Scanner.antt =====
-- A history of two signatures, of which the older or none is stored, on which the theorems of Scanner
-- apply.

use mathlib.Core.List.{Perm, reverse}
use saros_dlmm_indexer.Base.{
  ℕ, Option, none, some, List, [], ◌∷◌, ◌++◌, length, length-append, take, drop, ◌≡◌, refl, ap,
  arith, ◌⊎◌, inl, inr, ◌∙◌, sym, true, false, if◌then◌else◌, map,
}
use saros_dlmm_indexer.Text.{Text, codes, eq_text}
use saros_dlmm_indexer.Store.World.{Result, ok, err, rpc_failed, duplicate_key}
use saros_dlmm_indexer.Scanner.{is_pending, ConfirmedSignatureInfo, Node, Stored, Services, Scanner}
use saros_dlmm_indexer.Scanner.Insert.{
  events_of, get_newest_transaction_local, get_oldest_transaction_local,
}
use saros_dlmm_indexer.Scanner.Insert.Indexed.{indexed}
use saros_dlmm_indexer.Scanner.Order.{sort, first, filter, insert}
use saros_dlmm_indexer.Scanner.Model.{
  mem, listed, listed-Working, Behind, Serves, Rounds, enough, served, failed,
}
use saros_dlmm_indexer.Scanner.Backward.{run_backward_scan, initialize_scanner, set_complete}
use saros_dlmm_indexer.Scanner.Backward.Complete.{run_backward_scan_completes}
use saros_dlmm_indexer.Scanner.Backward.Lost.{run_backward_scan_loses}
use saros_dlmm_indexer.Scanner.Forward.{scan_forwards}
use saros_dlmm_indexer.Scanner.Forward.Newest.{scan_forwards_page}
use saros_dlmm_indexer.Scanner.Process.{
  transaction_job, process_unprocessed_transactions, start_scanning,
}
use saros_dlmm_indexer.Scanner.Process.Queued.{process_unprocessed_transactions_queues, pending}
use saros_dlmm_indexer.Scanner.Process.Stuck.{process_unprocessed_transactions_never_ends}
use saros_dlmm_indexer.Scanner.Startup.{on_module_init, here, next, forwards}
use saros_dlmm_indexer.Scanner.Job.{run_scanner}
use saros_dlmm_indexer.Scanner.Job.Idle.{started_never}

abbrev newer_info : ConfirmedSignatureInfo
newer_info = record { signature = codes "b"; slot = 8; block_time = some 90; has_err = false }

abbrev older_info : ConfirmedSignatureInfo
older_info = record { signature = codes "a"; slot = 7; block_time = none; has_err = false }

abbrev history : List ConfirmedSignatureInfo
history = newer_info ∷ older_info ∷ []

abbrev node : Node
node o = elim o.until [
  | some u ↦ ok (take o.limit (if eq_text u (codes "a") then newer_info ∷ [] else []))
  | none ↦ elim o.before [
    | some b ↦ ok (take o.limit (if eq_text b (codes "b") then older_info ∷ [] else []))
    | none ↦ ok (take o.limit history)
  ]
]

abbrev broken : Node
broken o = err rpc_failed

abbrev IsSplit :
    List ConfirmedSignatureInfo → ConfirmedSignatureInfo → List ConfirmedSignatureInfo → Type 0
IsSplit before x after =
    ((before ≡ []) × (x.signature ≡ codes "b") × (after ≡ older_info ∷ []))
    ⊎ ((before ≡ newer_info ∷ []) × (x.signature ≡ codes "a") × (after ≡ []))

abbrev first_text : List ConfirmedSignatureInfo → Text
first_text [] = []
first_text (x ∷ xs) = x.signature

history-IsSplit :
    (before : List ConfirmedSignatureInfo) (x : ConfirmedSignatureInfo)
    (after : List ConfirmedSignatureInfo)
    → history ≡ before ++ (x ∷ after)
    → IsSplit before x after
history-IsSplit [] x after h = inl (refl, ap first_text (sym h), ap (drop 1) (sym h))
history-IsSplit (g ∷ []) x after h =
    inr (ap (take 1) (sym h), ap (λ l. first_text (drop 1 l)) (sym h), ap (drop 2) (sym h))
history-IsSplit (g ∷ k ∷ before) x after h =
    absurd (omega (arith, ap length h, length-append before (x ∷ after)))

node-Serves : Serves history node
unfolding eq_text
node-Serves = record { before_page = behind; until_page = new }
  where
    page : ℕ → Text → Result (List ConfirmedSignatureInfo)
    page n u = ok (take n (if eq_text u (codes "b") then older_info ∷ [] else []))

    behind :
        (n : ℕ) (before : Option Text) (older : List ConfirmedSignatureInfo)
        → Behind history before older
        → node (record { limit = n; before = before; until = none }) ≡ ok (take n older)
    behind n none older h = ap (λ l. ok (take n l)) h
    behind n (some s) older (newer, x, e, x_is) = elim (history-IsSplit newer x older e) [
      | inl (_, b, rest) ↦ ap (page n) (sym x_is ∙ b) ∙ ap (λ l. ok (take n l)) (sym rest)
      | inr (_, a, rest) ↦ ap (page n) (sym x_is ∙ a) ∙ ap (λ l. ok (take n l)) (sym rest)
    ]

    after : ℕ → Text → Result (List ConfirmedSignatureInfo)
    after n u = ok (take n (if eq_text u (codes "a") then newer_info ∷ [] else []))

    new :
        (n : ℕ) (newer older : List ConfirmedSignatureInfo) (sig : ConfirmedSignatureInfo)
        → history ≡ newer ++ (sig ∷ older)
        → node (record { limit = n; before = none; until = some sig.signature }) ≡ ok (take n newer)
    new n newer older sig e = elim (history-IsSplit newer sig older e) [
      | inl (none_newer, b, _) ↦ ap (after n) b ∙ ap (λ l. ok (take n l)) (sym none_newer)
      | inr (one, a, _) ↦ ap (after n) a ∙ ap (λ l. ok (take n l)) (sym one)
    ]

abbrev empty : Scanner listed
empty = record {
  is_backward_scan_complete = false;
  is_processing_queue = false;
  startup_complete = false;
  outside = ([], []);
}

abbrev rounds : List Node
rounds = broken ∷ node ∷ node ∷ broken ∷ node ∷ []

rounds-Rounds : Rounds history 3 rounds
rounds-Rounds =
    failed (λ o. refl)
      (served node-Serves
        (served node-Serves (failed (λ o. refl) (served node-Serves (enough [])))))

run_backward_scan_completes_example :
    (s' : Scanner listed) × (run_backward_scan listed rounds empty ≡ some (ok tt, s'))
    × (s'.is_backward_scan_complete ≡ true)
    × Perm
        (indexed listed listed-Working s')
        (indexed listed listed-Working empty ++ events_of history)
unfolding get_oldest_transaction_local sort first
run_backward_scan_completes_example =
    run_backward_scan_completes listed listed-Working history history rounds empty none refl refl
      refl rounds-Rounds

abbrev full : Services
full = record listed { insert_many = λ es o. (err duplicate_key, o) }

abbrev empty_full : Scanner full
empty_full = record {
  is_backward_scan_complete = false;
  is_processing_queue = false;
  startup_complete = false;
  outside = ([], []);
}

run_backward_scan_loses_example :
    run_backward_scan full rounds empty_full ≡ some (ok tt, set_complete full empty_full)
unfolding get_oldest_transaction_local sort first
run_backward_scan_loses_example =
    run_backward_scan_loses full history history rounds empty_full none (λ es o. refl) refl refl
      refl rounds-Rounds

abbrev older_stored : Stored
older_stored = record {
  oid = 0;
  event = record {
    block_number = 7;
    signature = codes "a";
    block_time = none;
    processed = false;
    queued = false;
  };
}

abbrev one_stored : Scanner listed
one_stored = record {
  is_backward_scan_complete = true;
  is_processing_queue = false;
  startup_complete = false;
  outside = (older_stored ∷ [], []);
}

scan_forwards_page_example :
    let s' = scan_forwards listed node one_stored in
    (indexed listed listed-Working s'
      ≡ indexed listed listed-Working one_stored ++ events_of (reverse (newer_info ∷ [])))
    × (get_newest_transaction_local listed s' ≡ ok (some (codes "b")))
    × (scan_forwards listed node s' ≡ s')
unfolding get_newest_transaction_local sort first insert
scan_forwards_page_example =
    scan_forwards_page listed listed-Working [] [] newer_info older_info node node one_stored
      node-Serves node-Serves refl refl (omega arith, tt) tt

process_unprocessed_transactions_queues_example :
    (s' : Scanner listed) × (process_unprocessed_transactions listed 2 one_stored ≡ some s')
    × (pending listed listed-Working s'.outside ≡ [])
    × (s'.outside.1 ≡ [] ++ map transaction_job (pending listed listed-Working one_stored.outside))
    × (s'.is_processing_queue ≡ false)
unfolding sort filter insert is_pending mem
process_unprocessed_transactions_queues_example =
    process_unprocessed_transactions_queues listed listed-Working 2 one_stored refl refl (refl, tt)
      (omega arith)

abbrev shut : Services
shut = record listed { add_bulk = λ js o. (err rpc_failed, o) }

abbrev one_shut : Scanner shut
one_shut = record {
  is_backward_scan_complete = true;
  is_processing_queue = false;
  startup_complete = false;
  outside = (older_stored ∷ [], []);
}

process_unprocessed_transactions_never_ends_example :
    process_unprocessed_transactions shut 50 one_shut ≡ none
unfolding sort filter insert is_pending
process_unprocessed_transactions_never_ends_example =
    process_unprocessed_transactions_never_ends shut 50 older_stored [] one_shut refl refl refl refl

started_never_example :
    let s = scan_forwards listed node (on_module_init listed (older_stored ∷ [], [])) in
    (start_scanning listed node 9 s ≡ some s)
    × (run_scanner listed true node 9 (record { is_running = false; scanner = s })
        ≡ some (true, record { is_running = false; scanner = s }))
    × (initialize_scanner listed node rounds s ≡ some s)
started_never_example =
    let init = on_module_init listed (older_stored ∷ [], []) in
    started_never listed (older_stored ∷ [], []) (scan_forwards listed node init) node rounds 9
      (next here (forwards node init))
