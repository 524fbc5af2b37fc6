-- ===== src/Scanner/Backward.antt =====
-- `initializeScanner`, `checkGenesisReached` and `runBackwardScan`. Each round of the loop has its own
-- call of the node, in the order of the list; `none` where the list ends before the loop does.

pub mod Rounds
pub mod Complete
pub mod Lost
use mathlib.Core.Option
use mathlib.Core.List.{reverse}
use saros_dlmm_indexer.Base.{
  ℕ, ⊤, Bool, true, false, Option, none, some, List, [], ◌∷◌, if◌then◌else◌,
}
use saros_dlmm_indexer.Text.{Text}
use saros_dlmm_indexer.Store.World.{Result, ok, err}
use saros_dlmm_indexer.Scanner.{ConfirmedSignatureInfo, SignaturesOptions, Node, Services, Scanner}
use saros_dlmm_indexer.Scanner.Insert.{insert_batch_transaction_event, get_oldest_transaction_local}

-- `SCAN_LIMITS.BACKWARD`
abbrev pub backward_limit : ℕ
backward_limit = 1000

-- `reversedSignatures[0].signature`
unfoldable pub cursor_of : List ConfirmedSignatureInfo → Option Text
cursor_of [] = none
cursor_of (sig ∷ sigs) = some sig.signature

abbrev pub page_before : Option Text → SignaturesOptions
page_before before = record { limit = backward_limit; before = before; until = none }

module _ (services : Services) where
  abbrev pub set_complete : Scanner services → Scanner services
  set_complete s = record s { is_backward_scan_complete = true }

  -- One round, by the answer of its call: the cursor and the state after it. A failed call is logged,
  -- and the round is tried again with the same cursor.
  unfoldable pub after_answer :
      Option Text
      → Scanner services
      → Result (List ConfirmedSignatureInfo)
      → Option Text × Scanner services
  unfolding cursor_of
  after_answer before s (err x) = (before, s)
  after_answer before s (ok []) = (before, set_complete s)
  after_answer before s (ok (sig ∷ sigs)) =
      let reversed = reverse (sig ∷ sigs) in
      (cursor_of reversed, insert_batch_transaction_event services reversed s)

  unfoldable pub backward_round :
      Node → Option Text → Scanner services → Option Text × Scanner services
  backward_round get_signatures before s =
      after_answer before s (get_signatures (page_before before))

  -- `while (!this.state.isBackwardScanComplete)`
  unfoldable pub backward_loop :
      List Node → Option Text → Scanner services → Option (Scanner services)
  backward_loop [] before s = if s.is_backward_scan_complete then some s else none
  backward_loop (node ∷ nodes) before s =
      let (before', s') = backward_round node before s in
      let rest = backward_loop nodes before' s' in
      if s.is_backward_scan_complete then some s else rest

  unfoldable pub backward_from :
      List Node → Result (Option Text) → Scanner services → Option (Result ⊤ × Scanner services)
  unfolding backward_loop
  backward_from nodes (err x) s = some (err x, s)
  backward_from nodes (ok before) s =
      Option.map (λ s'. (ok tt, set_complete s')) (backward_loop nodes before s)

  unfoldable pub run_backward_scan :
      List Node → Scanner services → Option (Result ⊤ × Scanner services)
  unfolding backward_from
  run_backward_scan nodes s = backward_from nodes (get_oldest_transaction_local services s) s

  unfoldable pub no_older : Result (List ConfirmedSignatureInfo) → Bool
  no_older (ok []) = true
  no_older (ok (sig ∷ sigs)) = false
  no_older (err x) = false

  -- Throws only where the query of the oldest event does.
  unfoldable pub check_genesis_reached : Node → Scanner services → Result Bool
  unfolding no_older
  check_genesis_reached get_signatures s = elim (get_oldest_transaction_local services s) [
    | err x ↦ err x
    | ok none ↦ ok false
    | ok (some oldest) ↦
        ok (no_older (get_signatures (record { limit = 1; before = some oldest; until = none })))
  ]

  -- What is thrown is logged.
  unfoldable pub initialize_scanner :
      Node → List Node → Scanner services → Option (Scanner services)
  unfolding check_genesis_reached run_backward_scan
  initialize_scanner node nodes s = elim (check_genesis_reached node s) [
    | err x ↦ some s
    | ok true ↦ some (set_complete s)
    | ok false ↦ Option.map (λ r. r.1) (run_backward_scan nodes s)
  ]
