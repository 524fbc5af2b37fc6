-- ===== src/Pairs/Create.antt =====
-- modules/indexer/processors/initialize-pair.processor.ts: a pair is stored, once, with the fee
-- parameters of its configuration.
pub mod Mints
pub mod Created
pub mod Outcome
use saros_dlmm_indexer.Base.{⊤, ℕ, Option, none, some, List, [], ◌∷◌, ◌++◌}
use saros_dlmm_indexer.Text.{Text, codes}
use saros_dlmm_indexer.Schemas.{
  BinStepConfig, Pair, TokenMint, PartiallyDecodedInstruction, ParsedInstructionMessage,
}
use saros_dlmm_indexer.Store.World.{
  Db, World, Action, Result, ok, err, pure, duplicate_key, no_bin_step_config, ◌>>=◌,
}
use saros_dlmm_indexer.Idl.{IdlInstruction}
use saros_dlmm_indexer.Library.{decode_instruction, get_account}
use saros_dlmm_indexer.Pairs.Create.Mints.{Chain, handle_token_mint}

pub record InitializePairArgs : Type 0 where
  pub active_id : ℕ

pub record InitializePairDecoded : Type 0 where
  pub active_id : ℕ
  pub liquidity_book_config : Text
  pub token_mint_x : Text
  pub token_mint_y : Text
  pub bin_step_config : Text
  pub quote_asset_badge : Text
  pub pair : Text

decoded_of :
    InitializePairArgs
    → Option Text
    → Option Text
    → Option Text
    → Option Text
    → Option Text
    → Option Text
    → Option InitializePairDecoded
decoded_of args (some config) (some x) (some y) (some step_config) (some badge) (some pair) =
    some (record {
      active_id = args.active_id;
      liquidity_book_config = config;
      token_mint_x = x;
      token_mint_y = y;
      bin_step_config = step_config;
      quote_asset_badge = badge;
      pair = pair;
    })
decoded_of args _ _ _ _ _ _ = none

accounts_of :
    Option (Option (IdlInstruction × Option InitializePairArgs))
    → List Text
    → Option InitializePairDecoded
unfolding decoded_of
accounts_of (some (some (ix, some args))) accounts =
    decoded_of args (get_account ix accounts (codes "liquidity_book_config"))
      (get_account ix accounts (codes "token_mint_x"))
      (get_account ix accounts (codes "token_mint_y"))
      (get_account ix accounts (codes "bin_step_config"))
      (get_account ix accounts (codes "quote_asset_badge")) (get_account ix accounts (codes "pair"))
accounts_of _ accounts = none

-- `decodeInitializePairInstruction`: null where anything throws.
decode_initialize_pair_instruction :
    (Text → Option (List ℕ))
    → (Text → Option (Option InitializePairArgs))
    → PartiallyDecodedInstruction
    → Option InitializePairDecoded
unfolding accounts_of
decode_initialize_pair_instruction bs58_decode coder ix =
    accounts_of (decode_instruction bs58_decode coder ix.data_base58) ix.accounts

-- `pairData`
abbrev pub new_pair : InitializePairDecoded → BinStepConfig → TokenMint → TokenMint → Pair
new_pair d c x y = record {
  id = d.pair;
  bin_step = c.bin_step;
  active_id = d.active_id;
  liquidity_book_config = d.liquidity_book_config;
  bin_step_config_id = d.bin_step_config;
  token_mint_x_id = d.token_mint_x;
  token_mint_y_id = d.token_mint_y;
  quote_asset_id = d.quote_asset_badge;
  name = x.name ++ codes "-" ++ y.name;
  symbol = x.symbol ++ codes "-" ++ y.symbol;
  base_factor = c.base_factor;
  filter_period = c.filter_period;
  decay_period = c.decay_period;
  reduction_factor = c.reduction_factor;
  variable_fee_control = c.variable_fee_control;
  max_volatility_accumulator = c.max_volatility_accumulator;
  protocol_share = c.protocol_share;
  volatility_accumulator = 0;
  volatility_reference = 0;
  id_reference = 0;
  time_last_updated = 0;
  protocol_fees_x = codes "0";
  protocol_fees_y = codes "0";
  reserve_x = codes "0";
  reserve_y = codes "0";
}

module _ {db : Db} where
  unfoldable pub add_pair : World db → Option (db.pairs.State) → Result ⊤ × World db
  add_pair w none = (err duplicate_key, w)
  add_pair w (some s) = (ok tt, record w { pairs = s })

  unfoldable pub create_pair :
      InitializePairDecoded → BinStepConfig → TokenMint → TokenMint → Action db ⊤
  unfolding add_pair
  create_pair d c x y w = add_pair w (db.pairs.create (new_pair d c x y) w.pairs)

  unfoldable pub create_with_mints : Chain → InitializePairDecoded → BinStepConfig → Action db ⊤
  unfolding create_pair
  create_with_mints chain d c = handle_token_mint chain d.token_mint_x >>= λ x.
      handle_token_mint chain d.token_mint_y >>= λ y. create_pair d c x y

  unfoldable pub create_with_config :
      Chain → InitializePairDecoded → Option BinStepConfig → Action db ⊤
  unfolding create_with_mints
  create_with_config chain d none w = (err no_bin_step_config, w)
  create_with_config chain d (some c) w = create_with_mints chain d c w

  unfoldable pub create_unless_stored : Chain → InitializePairDecoded → Option Pair → Action db ⊤
  unfolding create_with_config
  create_unless_stored chain d (some existing) w = (ok tt, w)
  create_unless_stored chain d none w =
      create_with_config chain d (db.configs.find_one d.bin_step_config w.configs) w

  unfoldable pub process_initialize_pair : Chain → InitializePairDecoded → Action db ⊤
  unfolding create_unless_stored
  process_initialize_pair chain d w =
      create_unless_stored chain d (db.pairs.find_one d.pair w.pairs) w

  process_decoded : Chain → Option InitializePairDecoded → Action db ⊤
  unfolding process_initialize_pair
  process_decoded chain none = pure tt
  process_decoded chain (some d) = process_initialize_pair chain d

  pub process :
      Chain
      → (Text → Option (List ℕ))
      → (Text → Option (Option InitializePairArgs))
      → ParsedInstructionMessage
      → Action db ⊤
  unfolding process_decoded
  process chain bs58_decode coder m =
      process_decoded chain (decode_initialize_pair_instruction bs58_decode coder m.instruction)
