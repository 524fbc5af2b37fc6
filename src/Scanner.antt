-- ===== src/Scanner.antt =====
-- modules/indexer/scanner/scanner.service.ts: the signatures of the program are read from the node,
-- page by page, backwards to the first one and forwards from the newest one, and stored as
-- transaction events, which are put on the queue of the transaction processor in the order of the
-- chain. The node, the collection and the queue are parameters.

pub mod Order
pub mod Model
pub mod Insert
pub mod Backward
pub mod Forward
pub mod Process
pub mod Startup
pub mod Job
use saros_dlmm_indexer.Base.{ℕ, ⊤, Bool, ◌&&◌, ◌||◌, not, ltb, ◌==◌, Option, List}
use saros_dlmm_indexer.Text.{Text}
use saros_dlmm_indexer.Schemas.{TransactionEvent}
use saros_dlmm_indexer.Store.World.{Result}

-- What the scanner reads of web3.js's `ConfirmedSignatureInfo`; the block time is in seconds.
pub record ConfirmedSignatureInfo : Type 0 where
  pub signature : Text
  pub slot : ℕ
  pub block_time : Option ℕ
  pub has_err : Bool

-- The options of `getSignaturesForAddress`.
pub record SignaturesOptions : Type 0 where
  pub limit : ℕ
  pub before : Option Text
  pub until : Option Text

-- One call of the node, which may fail.
abbrev pub Node : Type 0
Node = SignaturesOptions → Result (List ConfirmedSignatureInfo)

-- A stored event with its `_id`. The driver makes ids that grow.
pub record Stored : Type 0 where
  pub oid : ℕ
  pub event : TransactionEvent

-- The data of a `PROCESS_TRANSACTION` job.
pub record ProcessTransaction : Type 0 where
  pub signature : Text
  pub block_number : ℕ
  pub block_time : Option ℕ

-- `{ blockNumber: 1, _id: 1 }`: the first argument comes before the second, or is the same.
unfoldable pub oldest_first : Stored → Stored → Bool
oldest_first a b =
    ltb a.event.block_number b.event.block_number
    || ((a.event.block_number == b.event.block_number) && not (ltb b.oid a.oid))

-- `{ blockNumber: -1, _id: -1 }`
unfoldable pub newest_first : Stored → Stored → Bool
newest_first a b = oldest_first b a

-- `{ processed: false, queued: { $ne: true } }`
unfoldable pub is_pending : Stored → Bool
is_pending d = not d.event.processed && not d.event.queued

-- The queries of mongoose and the call of BullMQ that the scanner makes.
pub record Services : Type 1 where
  pub State : Type 0
  -- `findOne({}).sort(order)`
  pub find_one : (Stored → Stored → Bool) → State → Result (Option Stored)
  -- `find(filter).sort(order).limit(n)`
  pub find : (Stored → Bool) → (Stored → Stored → Bool) → ℕ → State → Result (List Stored)
  -- `insertMany(documents, { ordered: false })`
  pub insert_many : List TransactionEvent → State → Result ⊤ × State
  -- `updateMany({ _id: { $in: ids } }, patch)`
  pub update_many : List ℕ → (TransactionEvent → TransactionEvent) → State → Result ⊤ × State
  -- `addBulk(jobs)`
  pub add_bulk : List ProcessTransaction → State → Result ⊤ × State

-- The state of the service, with the outside that it changes.
pub record Scanner (services : Services) : Type 0 where
  pub is_backward_scan_complete : Bool
  pub is_processing_queue : Bool
  pub startup_complete : Bool
  pub outside : services.State
