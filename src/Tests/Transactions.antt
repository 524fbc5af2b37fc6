-- ===== src/Tests/Transactions.antt =====
-- Examples for the parser and the router of transactions.
use saros_dlmm_indexer.Base.{
  ℕ, ◌≡◌, refl, ◌⊎◌, ◌↔◌, inl, inr, true, false, Option, none, some, List, [], ◌∷◌, Elem,
}
use saros_dlmm_indexer.Text.{Text, codes, eq_text}
use saros_dlmm_indexer.Schemas.{PartiallyDecodedInstruction, ParsedInstructionMessage}
use saros_dlmm_indexer.Library.{get_instruction_name, find_instruction}
use saros_dlmm_indexer.Transactions.Queues.{create_position_processor, process_position_create}
use saros_dlmm_indexer.Transactions.Parser.{
  parsed, partially_decoded, InnerInstructionSet, ParsedTransaction, message, pick, top_level,
  inner_level, inner_sets, extract_liquidity_book_instructions,
}
use saros_dlmm_indexer.Transactions.Parser.Extracted.{extract_complete_top, extract_complete_inner}
use saros_dlmm_indexer.Transactions.Parser.Sound.{IsTop, IsInnerOf, extract_sound}
use saros_dlmm_indexer.Transactions.Router.{
  add_job, mark_processed, fixed_signature, has_queue, route_of, handle_instruction,
  process_instruction, process, instruction_named, instruction_route, process_fetched,
  process_messages, process_all, finish, route_to_queue, try_handle_event, event_of_bytes,
  choose_route,
}
use saros_dlmm_indexer.Transactions.Router.Runs.{process_marks, process_jobs}

abbrev sample_instruction : PartiallyDecodedInstruction
sample_instruction = record { program_id = codes "L"; accounts = []; data_base58 = codes "Z" }

abbrev sample_set : InnerInstructionSet
sample_set = record { index = 1; instructions = parsed ∷ partially_decoded sample_instruction ∷ [] }

abbrev sample_transaction : ParsedTransaction
sample_transaction = record {
  signatures = codes "T" ∷ [];
  slot = 9;
  block_time = none;
  instructions = partially_decoded sample_instruction ∷ parsed ∷ [];
  inner_instructions = sample_set ∷ [];
}

abbrev create_bytes : Text → Option (List ℕ)
create_bytes data_base58 = some (48 ∷ 215 ∷ 197 ∷ 153 ∷ 96 ∷ 203 ∷ 180 ∷ 133 ∷ [])

extract_complete_top_example :
    Elem
      (message (codes "L") sample_transaction sample_instruction 0 none false)
      (extract_liquidity_book_instructions (codes "L") sample_transaction)
extract_complete_top_example =
    extract_complete_top (codes "L") sample_transaction 0 sample_instruction refl refl

extract_complete_inner_example :
    Elem
      (message (codes "L") sample_transaction sample_instruction 1 (some 1) true)
      (extract_liquidity_book_instructions (codes "L") sample_transaction)
extract_complete_inner_example =
    extract_complete_inner (codes "L") sample_transaction sample_set 1 sample_instruction (inl refl)
      refl refl

abbrev top_message : ParsedInstructionMessage
top_message = message (codes "L") sample_transaction sample_instruction 0 none false

extract_sound_example :
    (codes "L" ≡ codes "L")
    × (IsTop (codes "L") sample_transaction sample_transaction.instructions top_message
        ⊎ ((set : InnerInstructionSet) × Elem set sample_transaction.inner_instructions
            × IsInnerOf (codes "L") sample_transaction set top_message))
extract_sound_example =
    extract_sound (codes "L") sample_transaction top_message extract_complete_top_example

create_handled :
    handle_instruction create_bytes (codes "Z")
    ≡ some (some (create_position_processor, process_position_create))
unfolding handle_instruction get_instruction_name instruction_named instruction_route
    find_instruction eq_text
create_handled = refl

abbrev fetch : Text → Option (Option ParsedTransaction)
fetch signature = some (some sample_transaction)

process_jobs_example :
    Elem
      (add_job create_position_processor process_position_create top_message)
      (process create_bytes (codes "L") fetch (codes "T")).1
    ↔ (Elem top_message (extract_liquidity_book_instructions (codes "L") sample_transaction)
        × (route_of create_bytes top_message
            ≡ some (some (create_position_processor, process_position_create))))
process_jobs_example =
    process_jobs create_bytes (codes "L") fetch (codes "T") sample_transaction
      create_position_processor process_position_create top_message refl

fixed_marked :
    Elem (mark_processed fixed_signature) (process create_bytes (codes "L") fetch (codes "T")).1
unfolding process process_fetched process_messages process_all process_instruction finish route_of
    handle_instruction get_instruction_name instruction_named instruction_route find_instruction
    route_to_queue has_queue extract_liquidity_book_instructions top_level inner_sets inner_level
    pick eq_text try_handle_event event_of_bytes choose_route
fixed_marked = inr (inr (inl refl))

process_marks_example : fixed_signature ≡ fixed_signature
process_marks_example =
    process_marks create_bytes (codes "L") fetch (codes "T") fixed_signature fixed_marked
