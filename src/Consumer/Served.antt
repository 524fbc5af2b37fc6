-- ===== src/Consumer/Served.antt =====
-- The workers of the jobs that the transaction processor adds: none after `onModuleInit`, and after
-- `startWorkers` the one of the job's kind.
use mathlib.Core.Option
use saros_dlmm_indexer.Base.{
  ℕ, ◌≡◌, ◌∙◌, refl, sym, ap, is_some, subst, if◌then◌else◌, Bool, true, false, Option, none, some,
  List, [], arith, Elem,
}
use saros_dlmm_indexer.Text.{Text}
use saros_dlmm_indexer.Schemas.{ParsedInstructionMessage}
use saros_dlmm_indexer.Transactions.Queues.{
  QueueName, JobType, process_transaction, process_swap, process_position_create,
  process_position_increase, process_position_decrease, process_position_close,
  process_composition_fees, process_update_pair_static_fee_parameters, process_initialize_pair,
  process_initialize_bin_step_config, process_initialize_bin_array, process_quote_asset,
  process_dlq,
}
use saros_dlmm_indexer.Transactions.Queues.Options.{registered, retried}
use saros_dlmm_indexer.Transactions.Parser.{ParsedTransaction, extract_liquidity_book_instructions}
use saros_dlmm_indexer.Transactions.Router.{
  Route, event_route, instruction_route, add_job, event_named, event_of_bytes, try_handle_event,
  instruction_named, handle_instruction, choose_route, route_of, fixed_signature, process_fetched,
  process,
}
use saros_dlmm_indexer.Transactions.Router.Runs.{messages_jobs}
use saros_dlmm_indexer.Library.{get_event_name, get_instruction_name}
use saros_dlmm_indexer.Consumer.{
  Processor, transactions, swaps, increases, decreases, creations, closings, composition_fees,
  static_fee_parameters, pairs, bin_step_configs, bin_arrays, dead_letters, quote_assets, Worker,
  started_workers, start_workers, on_module_init, find_worker, eq_queue,
}

-- The processor that a kind of job is meant for, by its name.
abbrev pub processor_of : JobType → Option Processor
processor_of process_transaction = some transactions
processor_of process_swap = some swaps
processor_of process_position_create = some creations
processor_of process_position_increase = some increases
processor_of process_position_decrease = some decreases
processor_of process_position_close = some closings
processor_of process_composition_fees = some composition_fees
processor_of process_update_pair_static_fee_parameters = some static_fee_parameters
processor_of process_initialize_pair = some pairs
processor_of process_initialize_bin_step_config = some bin_step_configs
processor_of process_initialize_bin_array = some bin_arrays
processor_of process_quote_asset = some quote_assets
processor_of process_dlq = some dead_letters
processor_of _ = none

-- The worker of a queue, which has the processor of the job, and whose jobs have three attempts.
abbrev pub HasWorker : List Worker → QueueName → JobType → Type 0
HasWorker ws q j =
    (w : Worker) × (find_worker q ws ≡ some w)
    × (processor_of j ≡ some w.processor)
    × (registered q ≡ some retried)

abbrev IsServed : Option Route → Type 0
IsServed none = Unit
IsServed (some r) = HasWorker (start_workers []) r.0 r.1

-- The processor of the worker of a queue.
abbrev worker_processor : QueueName → Option Processor
worker_processor q = Option.map (λ w. w.processor) (find_worker q (start_workers []))

abbrev IsMeant : Option Route → Type 0
IsMeant none = Unit
IsMeant (some r) =
    (worker_processor r.0 ≡ processor_of r.1)
    × (is_some (processor_of r.1) ≡ true)
    × (registered r.0 ≡ some retried)

event_route-IsMeant : (name : Text) → IsMeant (event_route name)
unfolding event_route find_worker eq_queue start_workers started_workers registered
event_route-IsMeant name = ground arith

instruction_route-IsMeant : (name : Text) → IsMeant (instruction_route name)
unfolding instruction_route find_worker eq_queue start_workers started_workers registered
instruction_route-IsMeant name = ground arith

IsMeant-IsServed : (r : Option Route) → IsMeant r → IsServed r
IsMeant-IsServed none h = tt
IsMeant-IsServed (some (q, j)) (e, meant, options) =
    by_worker (find_worker q (start_workers [])) refl
  where
    by_worker :
        (o : Option Worker)
        → find_worker q (start_workers []) ≡ o
        → HasWorker (start_workers []) q j
    by_worker none found =
        let no_worker : worker_processor q ≡ none = ap (Option.map (λ w. w.processor)) found in
        let nothing : processor_of j ≡ none = sym e ∙ no_worker in
        let false_now : is_some (processor_of j) ≡ false = ap is_some nothing in cc
    by_worker (some w) found = (w, found, sym e ∙ ap (Option.map (λ w. w.processor)) found, options)

module _ (bs58_decode : Text → Option (List ℕ)) where
  -- What a computation that may throw chooses.
  abbrev Chosen : Option (Option Route) → Type 0
  Chosen none = Unit
  Chosen (some r) = IsServed r

  event_named-IsServed : (o : Option (Option Text)) → IsServed (event_named bs58_decode o)
  unfolding event_named
  event_named-IsServed none = tt
  event_named-IsServed (some none) = tt
  event_named-IsServed (some (some name)) = IsMeant-IsServed _ (event_route-IsMeant name)

  event_of_bytes-IsServed :
      (data_base58 : Text) (o : Option (List ℕ))
      → IsServed (event_of_bytes bs58_decode data_base58 o)
  unfolding event_of_bytes
  event_of_bytes-IsServed data_base58 none = tt
  event_of_bytes-IsServed data_base58 (some bytes) =
      then-IsServed _ _ (event_named-IsServed (get_event_name bs58_decode data_base58))
    where
      then-IsServed : (b : Bool) (r : Option Route) → IsServed r → IsServed (if b then r else none)
      then-IsServed true r h = h
      then-IsServed false r h = tt

  instruction_named-Chosen : (o : Option (Option Text)) → Chosen (instruction_named bs58_decode o)
  unfolding instruction_named
  instruction_named-Chosen none = tt
  instruction_named-Chosen (some none) = tt
  instruction_named-Chosen (some (some name)) = IsMeant-IsServed _ (instruction_route-IsMeant name)

  choose_route-Chosen :
      (r : Option Route) (o : Option (Option Route))
      → IsServed r
      → Chosen o
      → Chosen (choose_route bs58_decode r o)
  unfolding choose_route
  choose_route-Chosen none o h k = k
  choose_route-Chosen (some r) o h k = h

  route_of-Chosen : (m : ParsedInstructionMessage) → Chosen (route_of bs58_decode m)
  unfolding route_of try_handle_event handle_instruction
  route_of-Chosen m =
      if-Chosen m.is_inner _ _
        (choose_route-Chosen _ _ (event_of_bytes-IsServed data_base58 (bs58_decode data_base58))
          instruction)
        instruction
    where
      data_base58 : Text
      data_base58 = m.instruction.data_base58

      instruction : Chosen (handle_instruction bs58_decode m.instruction.data_base58)
      instruction =
          instruction_named-Chosen (get_instruction_name bs58_decode m.instruction.data_base58)

      if-Chosen :
          (b : Bool) (x y : Option (Option Route))
          → Chosen x
          → Chosen y
          → Chosen (if b then x else y)
      if-Chosen true x y h k = h
      if-Chosen false x y h k = k

  -- Whatever the RPC answers, take a job that a job of the transaction processor adds to a queue. After
  -- `onModuleInit`, where the call of `startWorkers` is commented out, its queue has no worker. The
  -- workers that `startWorkers` would start have one for it, and this worker hands the job to the
  -- processor that the type of the job names; the queue is registered, with three attempts for each job.
  pub process_served :
      (program_id : Text) (get_parsed_transaction : Text → Option (Option ParsedTransaction))
      (job_signature : Text) (q : QueueName) (j : JobType) (m : ParsedInstructionMessage)
      → Elem (add_job q j m) (process bs58_decode program_id get_parsed_transaction job_signature).1
      → (find_worker q (on_module_init []) ≡ none) × HasWorker (start_workers []) q j
  unfolding process on_module_init find_worker
  process_served program_id get_parsed_transaction job_signature q j m h =
      (refl, by_answer (get_parsed_transaction fixed_signature) h)
    where
      by_answer :
          (o : Option (Option ParsedTransaction))
          → Elem (add_job q j m) (process_fetched bs58_decode program_id o).1
          → HasWorker (start_workers []) q j
      by_answer none h = absurd h
      by_answer (some none) h = absurd h
      by_answer (some (some t)) h =
          let (_, found) =
            (messages_jobs bs58_decode program_id get_parsed_transaction q j m
                (extract_liquidity_book_instructions program_id t)).0
              h in
          subst Chosen found (route_of-Chosen m)
