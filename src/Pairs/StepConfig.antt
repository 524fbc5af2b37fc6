-- ===== src/Pairs/StepConfig.antt =====
-- initialize-bin-step-config.processor.ts: a fee configuration is stored, once.
pub mod Stored
use saros_dlmm_indexer.Base.{⊤, ℕ, Bool, true, false, Option, none, some, List, if◌then◌else◌}
use saros_dlmm_indexer.Text.{Text, codes, eq_text}
use saros_dlmm_indexer.Schemas.{
  BinStepConfig, ConfigAvailability, open_to_all, closed, active, PartiallyDecodedInstruction,
  ParsedInstructionMessage,
}
use saros_dlmm_indexer.Store.World.{Db, World, Action, Result, ok, err, pure, duplicate_key}
use saros_dlmm_indexer.Idl.{IdlInstruction}
use saros_dlmm_indexer.Library.{decode_instruction, get_account}
use saros_dlmm_indexer.Pairs.{StaticFeeParameters}

-- The arguments as the coder gives them; an enum is an object with one key, its variant.
pub record InitializeBinStepConfigArgs : Type 0 where
  pub bin_step : ℕ
  pub availability : Text
  pub fee_parameters : StaticFeeParameters

pub record InitializeBinStepConfigDecoded : Type 0 where
  pub bin_step : ℕ
  pub availability : ConfigAvailability
  pub fee_parameters : StaticFeeParameters
  pub liquidity_book_config : Text
  pub bin_step_config : Text

-- `data.availability.Open !== undefined`
availability_of : Text → ConfigAvailability
availability_of key = if eq_text key (codes "Open") then open_to_all else closed

decoded_of :
    InitializeBinStepConfigArgs → Option Text → Option Text → Option InitializeBinStepConfigDecoded
unfolding availability_of
decoded_of args (some config) (some step_config) = some (record {
  bin_step = args.bin_step;
  availability = availability_of args.availability;
  fee_parameters = args.fee_parameters;
  liquidity_book_config = config;
  bin_step_config = step_config;
})
decoded_of args _ _ = none

accounts_of :
    Option (Option (IdlInstruction × Option InitializeBinStepConfigArgs))
    → List Text
    → Option InitializeBinStepConfigDecoded
unfolding decoded_of
accounts_of (some (some (ix, some args))) accounts =
    decoded_of args (get_account ix accounts (codes "liquidity_book_config"))
      (get_account ix accounts (codes "bin_step_config"))
accounts_of _ accounts = none

-- `decodeInitializeBinStepConfigInstruction`: null where anything throws.
unfoldable pub decode_initialize_bin_step_config_instruction :
    (Text → Option (List ℕ))
    → (Text → Option (Option InitializeBinStepConfigArgs))
    → PartiallyDecodedInstruction
    → Option InitializeBinStepConfigDecoded
unfolding accounts_of
decode_initialize_bin_step_config_instruction bs58_decode coder ix =
    accounts_of (decode_instruction bs58_decode coder ix.data_base58) ix.accounts

-- `binStepConfigData`
abbrev pub new_config : InitializeBinStepConfigDecoded → BinStepConfig
new_config d = record {
  id = d.bin_step_config;
  liquidity_book_config = d.liquidity_book_config;
  status = active;
  availability = d.availability;
  bin_step = d.bin_step;
  base_factor = d.fee_parameters.base_factor;
  filter_period = d.fee_parameters.filter_period;
  decay_period = d.fee_parameters.decay_period;
  reduction_factor = d.fee_parameters.reduction_factor;
  variable_fee_control = d.fee_parameters.variable_fee_control;
  max_volatility_accumulator = d.fee_parameters.max_volatility_accumulator;
  protocol_share = d.fee_parameters.protocol_share;
}

module _ {db : Db} where
  add_config : World db → Option (db.configs.State) → Result ⊤ × World db
  add_config w none = (err duplicate_key, w)
  add_config w (some s) = (ok tt, record w { configs = s })

  create_config : InitializeBinStepConfigDecoded → Option BinStepConfig → Action db ⊤
  unfolding add_config
  create_config d (some existing) w = (ok tt, w)
  create_config d none w = add_config w (db.configs.create (new_config d) w.configs)

  pub process_initialize_bin_step_config : InitializeBinStepConfigDecoded → Action db ⊤
  unfolding create_config
  process_initialize_bin_step_config d w =
      create_config d (db.configs.find_one d.bin_step_config w.configs) w

  process_decoded : Option InitializeBinStepConfigDecoded → Action db ⊤
  unfolding process_initialize_bin_step_config
  process_decoded none = pure tt
  process_decoded (some d) = process_initialize_bin_step_config d

  pub process :
      (Text → Option (List ℕ))
      → (Text → Option (Option InitializeBinStepConfigArgs))
      → ParsedInstructionMessage
      → Action db ⊤
  unfolding process_decoded
  process bs58_decode coder m =
      process_decoded
        (decode_initialize_bin_step_config_instruction bs58_decode coder m.instruction)
