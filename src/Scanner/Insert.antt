-- ===== src/Scanner/Insert.antt =====
-- `insertBatchTransactionEvent`, and the two ends of what is stored.
pub mod Indexed
use mathlib.Core.Option
use saros_dlmm_indexer.Base.{
  ℕ, suc, zero, ◌*◌, false, Option, none, some, List, [], ◌∷◌, if◌then◌else◌,
}
use saros_dlmm_indexer.Text.{Text}
use saros_dlmm_indexer.Schemas.{TransactionEvent}
use saros_dlmm_indexer.Store.World.{Result, ok, err}
use saros_dlmm_indexer.Scanner.{
  ConfirmedSignatureInfo, Stored, Services, Scanner, oldest_first, newest_first,
}

-- `blockTime ? new Date(blockTime * 1000) : null`
unfoldable pub block_date_of : Option ℕ → Option ℕ
block_date_of none = none
block_date_of (some zero) = none
block_date_of (some (suc t)) = some (suc t * 1000)

unfoldable pub new_transaction_event : ConfirmedSignatureInfo → TransactionEvent
new_transaction_event sig = record {
  signature = sig.signature;
  block_number = sig.slot;
  block_time = block_date_of sig.block_time;
  processed = false;
  queued = false;
}

-- `filter((sig) => !sig.err).map(...)`
unfoldable pub events_of : List ConfirmedSignatureInfo → List TransactionEvent
events_of [] = []
events_of (sig ∷ sigs) =
    if sig.has_err then events_of sigs else new_transaction_event sig ∷ events_of sigs

abbrev pub signature_of : Result (Option Stored) → Result (Option Text)
signature_of (err x) = err x
signature_of (ok o) = ok (Option.map (λ d. d.event.signature) o)

module _ (services : Services) where
  -- What `insertMany` throws is logged, and the caller goes on.
  unfoldable pub insert_batch_transaction_event :
      List ConfirmedSignatureInfo → Scanner services → Scanner services
  insert_batch_transaction_event sigs s = record s {
    outside = (services.insert_many (events_of sigs) s.outside).1;
  }

  unfoldable pub get_oldest_transaction_local : Scanner services → Result (Option Text)
  get_oldest_transaction_local s = signature_of (services.find_one oldest_first s.outside)

  unfoldable pub get_newest_transaction_local : Scanner services → Result (Option Text)
  get_newest_transaction_local s = signature_of (services.find_one newest_first s.outside)
