-- ===== src/Consumer.antt =====
-- modules/indexer/consumer/consumer.service.ts: one worker for each queue, which hands its jobs to
-- the processor of that queue. BullMQ runs the workers.

pub mod Served
use saros_dlmm_indexer.Base.{
  ℕ, Bool, false, not, ◌==◌, Option, none, some, List, [], ◌∷◌, ◌++◌, length, if◌then◌else◌,
}
use saros_dlmm_indexer.Transactions.Queues.{
  QueueName, transaction_scanner, transaction_processor, instruction_processor, swap_processor,
  create_position_processor, close_position_processor, increase_position_processor,
  decrease_position_processor, composition_fees_processor,
  update_pair_static_fee_parameters_processor, dlq_processor, quote_asset_processor,
  initialize_pair_processor, initialize_bin_step_config_processor, initialize_bin_array_processor,
}

-- The processors that the service is constructed with.
pub data Processor : Type 0 where
  transactions swaps increases decreases creations closings composition_fees : Processor
  static_fee_parameters pairs bin_step_configs bin_arrays dead_letters quote_assets : Processor

pub record Worker : Type 0 where
  pub name : QueueName
  pub processor : Processor
  pub concurrency : ℕ
  pub closing : Bool

abbrev new_worker : QueueName → Processor → ℕ → Worker
new_worker name processor concurrency = record {
  name = name;
  processor = processor;
  concurrency = concurrency;
  closing = false;
}

unfoldable pub started_workers : List Worker
started_workers =
    new_worker transaction_processor transactions 2
    ∷ new_worker swap_processor swaps 5
    ∷ new_worker create_position_processor creations 3
    ∷ new_worker increase_position_processor increases 3
    ∷ new_worker decrease_position_processor decreases 3
    ∷ new_worker close_position_processor closings 3
    ∷ new_worker composition_fees_processor composition_fees 3
    ∷ new_worker update_pair_static_fee_parameters_processor static_fee_parameters 3
    ∷ new_worker initialize_pair_processor pairs 3
    ∷ new_worker initialize_bin_step_config_processor bin_step_configs 3
    ∷ new_worker initialize_bin_array_processor bin_arrays 2
    ∷ new_worker dlq_processor dead_letters 1
    ∷ new_worker quote_asset_processor quote_assets 2
    ∷ []

-- `startWorkers` pushes its workers behind those that are there.
unfoldable pub start_workers : List Worker → List Worker
unfolding started_workers
start_workers ws = ws ++ started_workers

-- `stopWorkers` closes the workers, whatever the closing of one throws, and forgets them.
unfoldable pub stop_workers : List Worker → List Worker
stop_workers ws = []

-- The call of `startWorkers` is commented out.
unfoldable pub on_module_init : List Worker → List Worker
on_module_init ws = ws

abbrev number_of : QueueName → ℕ
number_of transaction_scanner = 0
number_of transaction_processor = 1
number_of instruction_processor = 2
number_of swap_processor = 3
number_of create_position_processor = 4
number_of close_position_processor = 5
number_of increase_position_processor = 6
number_of decrease_position_processor = 7
number_of composition_fees_processor = 8
number_of update_pair_static_fee_parameters_processor = 9
number_of dlq_processor = 10
number_of quote_asset_processor = 11
number_of initialize_pair_processor = 12
number_of initialize_bin_step_config_processor = 13
number_of initialize_bin_array_processor = 14

unfoldable pub eq_queue : QueueName → QueueName → Bool
eq_queue q r = number_of q == number_of r

-- `this.workers.find(w => w.name === queueName)`
unfoldable pub find_worker : QueueName → List Worker → Option Worker
unfolding eq_queue
find_worker q [] = none
find_worker q (w ∷ ws) = if eq_queue w.name q then some w else find_worker q ws

-- What `getStatus` says of a queue: the worker's concurrency and whether it runs, or none.
pub record WorkerStatus : Type 0 where
  pub concurrency : ℕ
  pub running : Bool

unfoldable pub status_of : Option Worker → Option WorkerStatus
status_of none = none
status_of (some w) = some (record { concurrency = w.concurrency; running = not w.closing })

-- `Object.values(QUEUE_NAME)`
abbrev queue_names : List QueueName
queue_names =
    transaction_scanner ∷ transaction_processor ∷ instruction_processor ∷ swap_processor
    ∷ create_position_processor ∷ close_position_processor ∷ increase_position_processor
    ∷ decrease_position_processor ∷ composition_fees_processor
    ∷ update_pair_static_fee_parameters_processor ∷ dlq_processor ∷ quote_asset_processor
    ∷ initialize_pair_processor ∷ initialize_bin_step_config_processor
    ∷ initialize_bin_array_processor ∷ []

unfoldable pub statuses : List QueueName → List Worker → List (QueueName × Option WorkerStatus)
unfolding find_worker status_of
statuses [] ws = []
statuses (q ∷ qs) ws = (q, status_of (find_worker q ws)) ∷ statuses qs ws

unfoldable pub get_status : List Worker → ℕ × List (QueueName × Option WorkerStatus)
unfolding statuses
get_status ws = (length ws, statuses queue_names ws)
