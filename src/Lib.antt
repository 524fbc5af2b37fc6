-- ===== src/Lib.antt =====
-- The indexer of the Saros liquidity book (a NestJS service): jobs on queues carry transactions of a
-- Solana program, and processors turn their instructions and events into documents of a MongoDB
-- database. Paths below start at the repository's root.
--
-- A scanner stores the signatures of the program and adds a job for each. A job of the transaction
-- processor fetches a transaction, extracts the program's instructions from it and adds a job per
-- instruction to the queue of its processor, where a worker takes it. That processor decodes the data
-- by the program's interface, records the instruction, so that it is processed once, and then reads
-- and writes the collections. An instruction that cannot be read goes to the queue of dead letters.
--
--   Base, Text: helpers. Text holds strings as code units, `BigInt` and `toString` as `read_int` and
--     `int_to_text`, and the ids built from parts with a dash between them.
--   Schemas: the documents of src/modules/indexer/schemas and the jobs of types/indexer.types.ts.
--   Store: a mongoose collection with a unique `id` as an interface of operations and laws; the list
--     implementation of Store.Listed meets it. The unique index on a position's mint is `check_mint` of
--     Positions.Create. Store.World is the state of all collections, and
--     `Action` a handler: it returns or throws, and what it wrote before a throw stays.
--   Instruction: src/modules/indexer/services/instruction.service.ts.
--   Idl, Library: src/liquidity-book (interface, lookups by discriminator, decoding) and `splitAt`.
--   Transactions: transaction-parser.service.ts, transaction.processor.ts and the names of
--     src/modules/queue/queue.constant.ts. What a job does to the outside is a list of effects.
--   Positions: the four processors of positions. Positions.Update is the loop over the bins of an
--     event and Positions.Change the handler around it, which the processors of increase and
--     decrease share line by line; Positions.Increase and Positions.Decrease fill in how each reads
--     its operands. Positions.Create and Positions.Close are the other two.
--   Pairs: the processors of bin arrays, fee configurations, fee updates and quote assets
--     (initialize-bin-array, initialize-bin-step-config, update-pair-static-fee-parameters and
--     quote-asset.processor.ts).
--     Pairs.Create is initialize-pair.processor.ts, with the token mints of a pair in Pairs.Create.Mints.
--   Prices: src/utils/bin-math.ts: `powQ64` and `getPriceFromId` up to the conversion of the result to a
--     floating point number, `normalizeAmount`, and `multiply`, `add` and `subtract` (Prices.Floats).
--   Swaps: swap.processor.ts. A swap is told by an instruction, which brings the vaults, and by one event
--     for each bin that it went through, which moves the reserves.
--   CompositionFees: composition-fees.processor.ts.
--   Scanner: scanner/scanner.service.ts, which finds the signatures of the program and puts them on the
--     queue of the transaction processor. Scanner.Insert, Scanner.Backward, Scanner.Forward and
--     Scanner.Process are its operations, Scanner.Startup what may run after `onModuleInit`, and
--     Scanner.Job is jobs/scanner-job.service.ts.
--     Scanner.Model says what a collection, a queue and a node that do not fail answer.
--   Consumer: consumer/consumer.service.ts, the worker of each queue, whose options in
--     src/modules/queue/queue.module.ts are Transactions.Queues.Options.
--   DeadLetters: dlq.processor.ts and dlq-event.schema.ts.
--   Rpc: `getAccountCreator` and `getTokenAccount` of services/solana.service.ts, one attempt of their
--     retry.
--   Tests: a sample database and examples.
--
-- Parameters, since their code is not in the repository: base58, the Borsh coder, the layout of SPL
-- token accounts, the RPC node, Metaplex, BullMQ's queues and MongoDB. So is floating point, a type of
-- numbers whose operations are exact on whole numbers up to 2 ^ 53 (Prices.Floats.Exact). Numbers are
-- naturals where the source never has a negative one (indices, slots, u32 ids, Q64.64 powers) and
-- signed integers elsewhere. Loops are structural recursion over the lists of an event or over a count,
-- except four: the page loop of Rpc.Creator, whose fuel is one more than the signatures of the account;
-- the loop of `powQ64`, whose fuel is the exponent, which it halves; the backward scan, which takes the
-- calls of the node as a list, of which one more than the signatures that are left is enough; and the
-- queueing loop, whose fuel is one more than the pending events. The digits of a number use its
-- successor as fuel.
--
-- Not modelled: log lines, the texts of error messages, the timestamps that mongoose adds, the pauses
-- between rounds, NestJS and the environment, which only connect the parts, `getStatus` and
-- `validateGenesis` of the scanner, which only report, the calls of the RPC client that pass on one
-- query, services/queue.service.ts and services/indexer-queue.service.ts, which nothing uses, and the
-- functions of bin-math.ts that nothing calls, with `calculatePriceXY`, whose result nothing reads. The names that `parseTokenMetadata` finds by regular
-- expressions are a parameter of Pairs.Create.
pub mod Base
pub mod Text
pub mod Schemas
pub mod Store
pub mod Instruction
pub mod Idl
pub mod Library
pub mod Transactions
pub mod Positions
pub mod Pairs
pub mod Rpc
pub mod Scanner
pub mod Consumer
pub mod DeadLetters
pub mod Prices
pub mod Swaps
pub mod CompositionFees
pub mod Tests
