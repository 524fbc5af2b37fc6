-- ===== src/Transactions.antt =====
-- A transaction on its way to the queues: modules/indexer/services/transaction-parser.service.ts,
-- modules/queue/queue.constant.ts and modules/indexer/processors/transaction.processor.ts.
pub mod Queues
pub mod Parser
pub mod Router
