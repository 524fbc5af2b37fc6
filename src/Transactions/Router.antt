-- ===== src/Transactions/Router.antt =====
-- transaction.processor.ts: each liquidity book instruction of a transaction goes to the queue of
-- its processor. What a job does to the outside is the list of its effects, in order: jobs added
-- to queues, and the write that marks the transaction. The RPC call is a parameter (`none`: it
-- throws after its retries); adding a job and the last write are taken to succeed.
pub mod Routes
pub mod Runs
use saros_dlmm_indexer.Base.{
  ℕ, Bool, true, false, Option, none, some, List, [], ◌∷◌, ◌++◌, if◌then◌else◌, take,
}
use saros_dlmm_indexer.Text.{Text, codes, eq_text}
use saros_dlmm_indexer.Schemas.{ParsedInstructionMessage}
use saros_dlmm_indexer.Store.World.{Error, Result, ok, err, rpc_failed, type_error}
use saros_dlmm_indexer.Library.{event_identifier, get_event_name, get_instruction_name}
use saros_dlmm_indexer.Transactions.Queues.{
  QueueName, swap_processor, create_position_processor, close_position_processor,
  increase_position_processor, decrease_position_processor, composition_fees_processor,
  update_pair_static_fee_parameters_processor, quote_asset_processor, initialize_pair_processor,
  initialize_bin_step_config_processor, initialize_bin_array_processor, JobType, process_swap,
  process_position_create, process_position_increase, process_position_decrease,
  process_position_close, process_composition_fees, process_update_pair_static_fee_parameters,
  process_initialize_pair, process_initialize_bin_step_config, process_initialize_bin_array,
  process_quote_asset,
}
use saros_dlmm_indexer.Transactions.Parser.{ParsedTransaction, extract_liquidity_book_instructions}

abbrev pub Route : Type 0
Route = QueueName × JobType

-- The `switch` of `tryHandleEvent`.
unfoldable pub event_route : Text → Option Route
event_route name =
    if eq_text name (codes "BinSwapEvent")
    then some (swap_processor, process_swap)
    else if eq_text name (codes "CompositionFeesEvent")
    then some (composition_fees_processor, process_composition_fees)
    else if eq_text name (codes "QuoteAssetBadgeInitializationEvent")
    then some (quote_asset_processor, process_quote_asset)
    else if eq_text name (codes "QuoteAssetBadgeUpdateEvent")
    then some (quote_asset_processor, process_quote_asset)
    else if eq_text name (codes "PositionCreationEvent")
    then some (create_position_processor, process_position_create)
    else if eq_text name (codes "PositionIncreaseEvent")
    then some (increase_position_processor, process_position_increase)
    else if eq_text name (codes "PositionDecreaseEvent")
    then some (decrease_position_processor, process_position_decrease)
    else none

-- The `switch` of `handleInstruction`; two cases of the source are commented out.
unfoldable pub instruction_route : Text → Option Route
instruction_route name =
    if eq_text name (codes "swap")
    then some (swap_processor, process_swap)
    else if eq_text name (codes "create_position")
    then some (create_position_processor, process_position_create)
    else if eq_text name (codes "close_position")
    then some (close_position_processor, process_position_close)
    else if eq_text name (codes "composition_fees")
    then some (composition_fees_processor, process_composition_fees)
    else if eq_text name (codes "initialize_pair")
    then some (initialize_pair_processor, process_initialize_pair)
    else if eq_text name (codes "initialize_bin_step_config")
    then some (initialize_bin_step_config_processor, process_initialize_bin_step_config)
    else if eq_text name (codes "initialize_bin_array")
    then some (initialize_bin_array_processor, process_initialize_bin_array)
    else if eq_text name (codes "update_pair_static_fee_parameters")
    then some
        (update_pair_static_fee_parameters_processor, process_update_pair_static_fee_parameters)
    else none

-- The `switch` of `routeToQueue`: is there a queue of this name?
unfoldable pub has_queue : QueueName → Bool
has_queue swap_processor = true
has_queue create_position_processor = true
has_queue increase_position_processor = true
has_queue decrease_position_processor = true
has_queue close_position_processor = true
has_queue composition_fees_processor = true
has_queue initialize_pair_processor = true
has_queue initialize_bin_step_config_processor = true
has_queue initialize_bin_array_processor = true
has_queue quote_asset_processor = true
has_queue update_pair_static_fee_parameters_processor = true
has_queue _ = false

pub data Effect : Type 0 where
  add_job : QueueName → JobType → ParsedInstructionMessage → Effect
  add_dead_letter : ParsedInstructionMessage → Effect
  mark_processed : Text → Effect

-- The signature that the source fixes in place of the job's own.
abbrev pub fixed_signature : Text
fixed_signature =
    codes "54LML8qXjJXq4JRbTiGgyJ76NVURWGhZGA9Xnjgo2ucdDtNfY98rXeUPDCyfpjW7FXpv8nAR9XkirTCKjhkxG5ba"

module _ (bs58_decode : Text → Option (List ℕ)) where
  -- Null where the data is no event, is of no known event, or cannot be read.
  unfoldable pub event_named : Option (Option Text) → Option Route
  unfolding event_route
  event_named (some (some name)) = event_route name
  event_named _ = none

  unfoldable pub event_of_bytes : Text → Option (List ℕ) → Option Route
  unfolding event_named
  event_of_bytes data_base58 none = none
  event_of_bytes data_base58 (some bytes) =
      if eq_text (take 8 bytes) event_identifier
      then event_named (get_event_name bs58_decode data_base58)
      else none

  unfoldable pub try_handle_event : Text → Option Route
  unfolding event_of_bytes
  try_handle_event data_base58 = event_of_bytes data_base58 (bs58_decode data_base58)

  -- `none` is a throw, `some none` is null.
  unfoldable pub instruction_named : Option (Option Text) → Option (Option Route)
  unfolding instruction_route
  instruction_named none = none
  instruction_named (some none) = some none
  instruction_named (some (some name)) = some (instruction_route name)

  unfoldable pub handle_instruction : Text → Option (Option Route)
  unfolding instruction_named
  handle_instruction data_base58 = instruction_named (get_instruction_name bs58_decode data_base58)

  unfoldable pub route_to_queue : Route → ParsedInstructionMessage → List Effect
  unfolding has_queue
  route_to_queue (queue_name, job_type) m =
      if has_queue queue_name then add_job queue_name job_type m ∷ [] else []

  -- The `catch` puts an instruction that threw on the dead letter queue.
  unfoldable pub finish : ParsedInstructionMessage → Option (Option Route) → List Effect
  unfolding route_to_queue
  finish m none = add_dead_letter m ∷ []
  finish m (some none) = []
  finish m (some (some route)) = route_to_queue route m

  unfoldable pub choose_route : Option Route → Option (Option Route) → Option (Option Route)
  choose_route none r = r
  choose_route (some route) r = some (some route)

  unfoldable pub route_of : ParsedInstructionMessage → Option (Option Route)
  unfolding choose_route try_handle_event handle_instruction
  route_of m =
      if m.is_inner
      then choose_route (try_handle_event m.instruction.data_base58)
          (handle_instruction m.instruction.data_base58)
      else handle_instruction m.instruction.data_base58

  unfoldable pub process_instruction : ParsedInstructionMessage → List Effect
  unfolding finish route_of
  process_instruction m = finish m (route_of m)

  unfoldable pub process_all : List ParsedInstructionMessage → List Effect
  unfolding process_instruction
  process_all [] = []
  process_all (m ∷ ms) = process_instruction m ++ process_all ms

  module _ (program_id : Text) where
    unfoldable pub process_messages : List ParsedInstructionMessage → List Effect
    unfolding process_all
    process_messages [] = []
    process_messages (m ∷ ms) = process_all (m ∷ ms) ++ mark_processed fixed_signature ∷ []

    unfoldable pub process_fetched : Option (Option ParsedTransaction) → Result Unit × List Effect
    unfolding process_messages
    process_fetched none = (err rpc_failed, [])
    process_fetched (some none) = (ok tt, [])
    process_fetched (some (some t)) =
        (ok tt, process_messages (extract_liquidity_book_instructions program_id t))

    -- `process(job)`, at the signature of the job.
    unfoldable pub process :
        (Text → Option (Option ParsedTransaction)) → Text → Result Unit × List Effect
    unfolding process_fetched
    process get_parsed_transaction job_signature =
        process_fetched (get_parsed_transaction fixed_signature)
