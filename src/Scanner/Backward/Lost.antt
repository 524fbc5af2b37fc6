-- ===== src/Scanner/Backward/Lost.antt =====
-- An insertion that fails is lost: the cursor of the backward scan moves on all the same.
use mathlib.Core.List.{reverse}
use saros_dlmm_indexer.Base.{⊤, suc, ◌≡◌, ◌∙◌, refl, ap, false, Option, some, List, length}
use saros_dlmm_indexer.Text.{Text}
use saros_dlmm_indexer.Schemas.{TransactionEvent}
use saros_dlmm_indexer.Store.World.{Result, ok, err, duplicate_key}
use saros_dlmm_indexer.Scanner.{ConfirmedSignatureInfo, Node, Services, Scanner}
use saros_dlmm_indexer.Scanner.Insert.{
  events_of, insert_batch_transaction_event, get_oldest_transaction_local,
}
use saros_dlmm_indexer.Scanner.Model.{Behind, Rounds}
use saros_dlmm_indexer.Scanner.Backward.{set_complete, run_backward_scan}
use saros_dlmm_indexer.Scanner.Backward.Rounds.{run_backward_scan-Ends}

module _ (services : Services) where
  -- Where every `insertMany` throws and stores nothing, a backward scan that is not complete still
  -- completes and returns, with nothing stored of the part of the history that it read: it is enough
  -- that one more call of the node is served than that part has signatures.
  pub run_backward_scan_loses :
      (history older : List ConfirmedSignatureInfo) (nodes : List Node) (s : Scanner services)
      (before : Option Text)
      → ((es : List TransactionEvent) (o : services.State)
          → services.insert_many es o ≡ (err duplicate_key, o))
      → get_oldest_transaction_local services s ≡ ok before
      → Behind history before older
      → s.is_backward_scan_complete ≡ false
      → Rounds history (suc (length older)) nodes
      → run_backward_scan services nodes s ≡ some (ok tt, set_complete services s)
  unfolding insert_batch_transaction_event
  run_backward_scan_loses history older nodes s before lost o b h r =
      let (s', e, same) =
        run_backward_scan-Ends services
          (λ (t : Scanner services) _ (t' : Scanner services).
            set_complete services t' ≡ set_complete services t)
          (λ t. refl)
          (λ page later t t' k.
            k
            ∙ ap
                (λ (w : Result ⊤ × services.State).
                  set_complete services (record t { outside = w.1 }))
                (lost (events_of (reverse page)) t.outside))
          history older nodes s before o b h r in
      e ∙ ap (λ (t : Scanner services). some (ok tt, t)) same
