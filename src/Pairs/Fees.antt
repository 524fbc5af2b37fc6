-- ===== src/Pairs/Fees.antt =====
-- update-pair-static-fee-parameters.processor.ts: the fee parameters of a pair are replaced.
pub mod Replaced
use saros_dlmm_indexer.Base.{
  ⊤, ℕ, Bool, true, false, Option, none, some, List, [], ◌∷◌, if◌then◌else◌,
}
use saros_dlmm_indexer.Text.{Text, codes, eq_text}
use saros_dlmm_indexer.Schemas.{Pair, PartiallyDecodedInstruction, ParsedInstructionMessage}
use saros_dlmm_indexer.Store.World.{
  Db, World, Action, Result, ok, err, ◌>>=◌, pure, throw, modify, no_pair,
}
use saros_dlmm_indexer.Idl.{IdlInstruction}
use saros_dlmm_indexer.Library.{decode_instruction, get_account}
use saros_dlmm_indexer.Instruction.{
  update_pair_static_fee_parameters, Check, already_processed, inserted,
  check_and_insert_instruction,
}
use saros_dlmm_indexer.Pairs.{StaticFeeParameters}

pub record UpdatePairStaticFeeParametersDecoded : Type 0 where
  pub fee_parameters : StaticFeeParameters
  pub liquidity_book_config : Text
  pub pair : Text

decoded_of :
    StaticFeeParameters → Option Text → Option Text → Option UpdatePairStaticFeeParametersDecoded
decoded_of args (some config) (some pair) =
    some (record { fee_parameters = args; liquidity_book_config = config; pair = pair })
decoded_of args _ _ = none

-- The name of the instruction is checked; the coder's null, like a throw, makes null.
accounts_of :
    Option (Option (IdlInstruction × Option StaticFeeParameters))
    → List Text
    → Option UpdatePairStaticFeeParametersDecoded
unfolding decoded_of
accounts_of (some (some (ix, some args))) accounts =
    if eq_text ix.name (codes "update_pair_static_fee_parameters")
    then decoded_of args (get_account ix accounts (codes "liquidity_book_config"))
        (get_account ix accounts (codes "pair"))
    else none
accounts_of _ accounts = none

unfoldable pub decode_update_pair_static_fee_parameters_instruction :
    (Text → Option (List ℕ))
    → (Text → Option (Option StaticFeeParameters))
    → PartiallyDecodedInstruction
    → Option UpdatePairStaticFeeParametersDecoded
unfolding accounts_of
decode_update_pair_static_fee_parameters_instruction bs58_decode coder ix =
    accounts_of (decode_instruction bs58_decode coder ix.data_base58) ix.accounts

abbrev pub set_fees : StaticFeeParameters → Pair → Pair
set_fees f p = record p {
  base_factor = f.base_factor;
  filter_period = f.filter_period;
  decay_period = f.decay_period;
  reduction_factor = f.reduction_factor;
  variable_fee_control = f.variable_fee_control;
  max_volatility_accumulator = f.max_volatility_accumulator;
  protocol_share = f.protocol_share;
}

module _ {db : Db} where
  update_found : UpdatePairStaticFeeParametersDecoded → Option Pair → Action db ⊤
  update_found d none = throw no_pair
  update_found d (some p) =
      modify
        (λ w. record w { pairs = db.pairs.update_one d.pair (set_fees d.fee_parameters) w.pairs })

  pub process_update_pair_static_fee_parameters : UpdatePairStaticFeeParametersDecoded → Action db ⊤
  unfolding update_found
  process_update_pair_static_fee_parameters d w =
      update_found d (db.pairs.find_one d.pair w.pairs) w

  after_check : UpdatePairStaticFeeParametersDecoded → Check → Action db ⊤
  unfolding process_update_pair_static_fee_parameters
  after_check d already_processed = pure tt
  after_check d (inserted i) = process_update_pair_static_fee_parameters d

  pub process_decoded :
      ParsedInstructionMessage → Option UpdatePairStaticFeeParametersDecoded → Action db ⊤
  unfolding after_check
  process_decoded m none = pure tt
  process_decoded m (some d) = do
    check ← check_and_insert_instruction m update_pair_static_fee_parameters
    after_check d check

  unfoldable pub process :
      (Text → Option (List ℕ))
      → (Text → Option (Option StaticFeeParameters))
      → ParsedInstructionMessage
      → Action db ⊤
  process bs58_decode coder m =
      process_decoded m
        (decode_update_pair_static_fee_parameters_instruction bs58_decode coder m.instruction)
