-- ===== src/Transactions/Queues.antt =====
-- modules/queue/queue.constant.ts: the names of the queues and of the jobs.
pub mod Options

-- `QUEUE_NAME`
pub data QueueName : Type 0 where
  transaction_scanner transaction_processor instruction_processor : QueueName
  swap_processor create_position_processor close_position_processor : QueueName
  increase_position_processor decrease_position_processor : QueueName
  composition_fees_processor update_pair_static_fee_parameters_processor : QueueName
  dlq_processor quote_asset_processor initialize_pair_processor : QueueName
  initialize_bin_step_config_processor initialize_bin_array_processor : QueueName

-- `JOB_TYPES`
pub data JobType : Type 0 where
  scan_transactions process_transaction process_instruction process_swap : JobType
  process_position_create process_position_increase process_position_decrease : JobType
  process_position_close process_composition_fees : JobType
  process_update_pair_static_fee_parameters process_initialize_pair : JobType
  process_initialize_bin_step_config process_initialize_bin_array : JobType
  process_quote_asset process_dlq : JobType
