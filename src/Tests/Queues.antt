-- ===== src/Tests/Queues.antt =====
-- A job for a worker, and a dead letter that is refused.
use saros_dlmm_indexer.Base.{
  ℕ, ◌≡◌, refl, inl, Bool, true, false, Option, none, some, List, [], ◌∷◌, if◌then◌else◌,
}
use saros_dlmm_indexer.Text.{Text, codes, eq_text}
use saros_dlmm_indexer.Schemas.{PartiallyDecodedInstruction}
use saros_dlmm_indexer.Library.{get_instruction_name, find_instruction}
use saros_dlmm_indexer.Store.World.{Result, ok, err, validation_failed}
use saros_dlmm_indexer.Transactions.Queues.{create_position_processor, process_position_create}
use saros_dlmm_indexer.Transactions.Parser.{
  partially_decoded, ParsedTransaction, message, pick, top_level, inner_level, inner_sets,
  extract_liquidity_book_instructions,
}
use saros_dlmm_indexer.Transactions.Router.{
  add_dead_letter, has_queue, route_of, handle_instruction, process_instruction, process,
  instruction_named, instruction_route, process_fetched, process_messages, process_all, finish,
  route_to_queue, try_handle_event, event_of_bytes, choose_route,
}
use saros_dlmm_indexer.Consumer.{start_workers, on_module_init, find_worker}
use saros_dlmm_indexer.Consumer.Served.{HasWorker, process_served}
use saros_dlmm_indexer.DeadLetters
use saros_dlmm_indexer.DeadLetters.{DlqEvent, DlqModel, dead_letter_of}
use saros_dlmm_indexer.DeadLetters.Refused.{
  misses_required, Validates, run_jobs, dead_letter_is_lost,
}
use saros_dlmm_indexer.Tests.{sample_job}

abbrev routed_instruction : PartiallyDecodedInstruction
routed_instruction = record { program_id = codes "L"; accounts = []; data_base58 = codes "Z" }

abbrev routed_transaction : ParsedTransaction
routed_transaction = record {
  signatures = codes "T" ∷ [];
  slot = 9;
  block_time = none;
  instructions = partially_decoded routed_instruction ∷ [];
  inner_instructions = [];
}

abbrev position_bytes : Text → Option (List ℕ)
position_bytes data_base58 = some (48 ∷ 215 ∷ 197 ∷ 153 ∷ 96 ∷ 203 ∷ 180 ∷ 133 ∷ [])

process_served_example :
    (find_worker create_position_processor (on_module_init []) ≡ none)
    × HasWorker (start_workers []) create_position_processor process_position_create
unfolding process process_fetched process_messages process_all process_instruction finish
    route_to_queue has_queue route_of handle_instruction instruction_named instruction_route
    get_instruction_name find_instruction extract_liquidity_book_instructions pick top_level
    inner_level inner_sets eq_text try_handle_event event_of_bytes choose_route
process_served_example =
    process_served position_bytes (codes "L") (λ s. some (some routed_transaction)) (codes "T")
      create_position_processor process_position_create
      (message (codes "L") routed_transaction routed_instruction 0 none false) (inl refl)

-- The documents that were saved.
abbrev dlq : DlqModel
dlq = record {
  State = List DlqEvent;
  save = λ d s. if misses_required d then (err validation_failed, s) else (ok tt, d ∷ s);
}

dlq-Validates : Validates dlq
dlq-Validates d s h = refused (misses_required d) h
  where
    refused :
        (b : Bool)
        → b ≡ true
        → ◌≡◌ {A = Result Unit × List DlqEvent}
            (if b then (err validation_failed, s) else (ok tt, d ∷ s))
            (err validation_failed, s)
    refused true e = refl
    refused false e = cc

dead_letter_is_lost_example :
    (process_instruction (λ t. none) sample_job ≡ add_dead_letter sample_job ∷ [])
    × (DeadLetters.process dlq (dead_letter_of sample_job (codes "E")) []
        ≡ (err validation_failed, []))
    × (run_jobs dlq (dead_letter_of sample_job (codes "E") ∷ []) [] ≡ [])
dead_letter_is_lost_example =
    dead_letter_is_lost dlq dlq-Validates (λ t. none) sample_job (codes "E") [] [] refl
