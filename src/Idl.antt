-- ===== src/Idl.antt =====
-- liquidity-book.idl.ts: the interface of the on-chain program, as far as the indexer reads it: the
-- names, discriminators and account names of the instructions, the events, and the types' names.
use saros_dlmm_indexer.Base.{ℕ, List, [], ◌∷◌}
use saros_dlmm_indexer.Text.{Text, codes}

pub record IdlInstruction : Type 0 where
  pub name : Text
  pub discriminator : List ℕ
  pub accounts : List Text

pub record IdlEvent : Type 0 where
  pub name : Text
  pub discriminator : List ℕ

abbrev accept_config_ownership : IdlInstruction
accept_config_ownership = record {
  name = codes "accept_config_ownership";
  discriminator = 6 ∷ 212 ∷ 14 ∷ 48 ∷ 229 ∷ 38 ∷ 62 ∷ 241 ∷ [];
  accounts =
      codes "liquidity_book_config"
      ∷ codes "pending_preset_authority"
      ∷ codes "event_authority"
      ∷ codes "program"
      ∷ [];
}

abbrev close_position : IdlInstruction
close_position = record {
  name = codes "close_position";
  discriminator = 123 ∷ 134 ∷ 81 ∷ 0 ∷ 49 ∷ 68 ∷ 98 ∷ 98 ∷ [];
  accounts =
      codes "pair"
      ∷ codes "position"
      ∷ codes "position_mint"
      ∷ codes "position_token_account"
      ∷ codes "bin_array_lower"
      ∷ codes "bin_array_upper"
      ∷ codes "token_mint_x"
      ∷ codes "token_mint_y"
      ∷ codes "token_vault_x"
      ∷ codes "token_vault_y"
      ∷ codes "user_vault_x"
      ∷ codes "user_vault_y"
      ∷ codes "user"
      ∷ codes "token_program_x"
      ∷ codes "token_program_y"
      ∷ codes "position_token_program"
      ∷ codes "system_program"
      ∷ codes "memo_program"
      ∷ codes "hook"
      ∷ codes "hooks_program"
      ∷ codes "event_authority"
      ∷ codes "program"
      ∷ [];
}

abbrev create_position : IdlInstruction
create_position = record {
  name = codes "create_position";
  discriminator = 48 ∷ 215 ∷ 197 ∷ 153 ∷ 96 ∷ 203 ∷ 180 ∷ 133 ∷ [];
  accounts =
      codes "pair"
      ∷ codes "position"
      ∷ codes "position_mint"
      ∷ codes "position_token_account"
      ∷ codes "user"
      ∷ codes "system_program"
      ∷ codes "token_program"
      ∷ codes "associated_token_program"
      ∷ codes "event_authority"
      ∷ codes "program"
      ∷ [];
}

abbrev decrease_position : IdlInstruction
decrease_position = record {
  name = codes "decrease_position";
  discriminator = 57 ∷ 125 ∷ 21 ∷ 59 ∷ 200 ∷ 137 ∷ 179 ∷ 108 ∷ [];
  accounts =
      codes "pair"
      ∷ codes "position"
      ∷ codes "position_mint"
      ∷ codes "position_token_account"
      ∷ codes "bin_array_lower"
      ∷ codes "bin_array_upper"
      ∷ codes "token_mint_x"
      ∷ codes "token_mint_y"
      ∷ codes "token_vault_x"
      ∷ codes "token_vault_y"
      ∷ codes "user_vault_x"
      ∷ codes "user_vault_y"
      ∷ codes "user"
      ∷ codes "token_program_x"
      ∷ codes "token_program_y"
      ∷ codes "position_token_program"
      ∷ codes "system_program"
      ∷ codes "memo_program"
      ∷ codes "hook"
      ∷ codes "hooks_program"
      ∷ codes "event_authority"
      ∷ codes "program"
      ∷ [];
}

abbrev increase_position : IdlInstruction
increase_position = record {
  name = codes "increase_position";
  discriminator = 253 ∷ 234 ∷ 128 ∷ 104 ∷ 192 ∷ 188 ∷ 45 ∷ 91 ∷ [];
  accounts =
      codes "pair"
      ∷ codes "position"
      ∷ codes "position_mint"
      ∷ codes "position_token_account"
      ∷ codes "bin_array_lower"
      ∷ codes "bin_array_upper"
      ∷ codes "token_mint_x"
      ∷ codes "token_mint_y"
      ∷ codes "token_vault_x"
      ∷ codes "token_vault_y"
      ∷ codes "user_vault_x"
      ∷ codes "user_vault_y"
      ∷ codes "user"
      ∷ codes "token_program_x"
      ∷ codes "token_program_y"
      ∷ codes "position_token_program"
      ∷ codes "system_program"
      ∷ codes "memo_program"
      ∷ codes "hook"
      ∷ codes "hooks_program"
      ∷ codes "event_authority"
      ∷ codes "program"
      ∷ [];
}

abbrev initialize_bin_array : IdlInstruction
initialize_bin_array = record {
  name = codes "initialize_bin_array";
  discriminator = 35 ∷ 86 ∷ 19 ∷ 185 ∷ 78 ∷ 212 ∷ 75 ∷ 211 ∷ [];
  accounts =
      codes "pair"
      ∷ codes "bin_array"
      ∷ codes "user"
      ∷ codes "system_program"
      ∷ codes "event_authority"
      ∷ codes "program"
      ∷ [];
}

abbrev initialize_bin_step_config : IdlInstruction
initialize_bin_step_config = record {
  name = codes "initialize_bin_step_config";
  discriminator = 2 ∷ 168 ∷ 136 ∷ 251 ∷ 163 ∷ 9 ∷ 132 ∷ 255 ∷ [];
  accounts =
      codes "liquidity_book_config"
      ∷ codes "bin_step_config"
      ∷ codes "preset_authority"
      ∷ codes "system_program"
      ∷ codes "event_authority"
      ∷ codes "program"
      ∷ [];
}

abbrev initialize_config : IdlInstruction
initialize_config = record {
  name = codes "initialize_config";
  discriminator = 208 ∷ 127 ∷ 21 ∷ 1 ∷ 194 ∷ 190 ∷ 196 ∷ 70 ∷ [];
  accounts =
      codes "config"
      ∷ codes "payer"
      ∷ codes "system_program"
      ∷ codes "event_authority"
      ∷ codes "program"
      ∷ [];
}

abbrev initialize_pair : IdlInstruction
initialize_pair = record {
  name = codes "initialize_pair";
  discriminator = 177 ∷ 114 ∷ 226 ∷ 34 ∷ 186 ∷ 150 ∷ 5 ∷ 245 ∷ [];
  accounts =
      codes "liquidity_book_config"
      ∷ codes "token_mint_x"
      ∷ codes "token_mint_y"
      ∷ codes "bin_step_config"
      ∷ codes "quote_asset_badge"
      ∷ codes "pair"
      ∷ codes "user"
      ∷ codes "system_program"
      ∷ codes "event_authority"
      ∷ codes "program"
      ∷ [];
}

abbrev initialize_quote_asset_badge : IdlInstruction
initialize_quote_asset_badge = record {
  name = codes "initialize_quote_asset_badge";
  discriminator = 115 ∷ 174 ∷ 34 ∷ 42 ∷ 176 ∷ 5 ∷ 229 ∷ 207 ∷ [];
  accounts =
      codes "liquidity_book_config"
      ∷ codes "quote_asset_badge"
      ∷ codes "token_mint"
      ∷ codes "preset_authority"
      ∷ codes "system_program"
      ∷ codes "event_authority"
      ∷ codes "program"
      ∷ [];
}

abbrev set_hook : IdlInstruction
set_hook = record {
  name = codes "set_hook";
  discriminator = 175 ∷ 16 ∷ 187 ∷ 252 ∷ 19 ∷ 54 ∷ 111 ∷ 221 ∷ [];
  accounts =
      codes "liquidity_book_config"
      ∷ codes "pair"
      ∷ codes "preset_authority"
      ∷ codes "hook"
      ∷ codes "hooks_program"
      ∷ codes "system_program"
      ∷ [];
}

abbrev swap : IdlInstruction
swap = record {
  name = codes "swap";
  discriminator = 248 ∷ 198 ∷ 158 ∷ 145 ∷ 225 ∷ 117 ∷ 135 ∷ 200 ∷ [];
  accounts =
      codes "pair"
      ∷ codes "token_mint_x"
      ∷ codes "token_mint_y"
      ∷ codes "bin_array_lower"
      ∷ codes "bin_array_upper"
      ∷ codes "token_vault_x"
      ∷ codes "token_vault_y"
      ∷ codes "user_vault_x"
      ∷ codes "user_vault_y"
      ∷ codes "user"
      ∷ codes "token_program_x"
      ∷ codes "token_program_y"
      ∷ codes "memo_program"
      ∷ codes "hook"
      ∷ codes "hooks_program"
      ∷ codes "event_authority"
      ∷ codes "program"
      ∷ [];
}

abbrev transfer_config_ownership : IdlInstruction
transfer_config_ownership = record {
  name = codes "transfer_config_ownership";
  discriminator = 53 ∷ 124 ∷ 67 ∷ 226 ∷ 108 ∷ 130 ∷ 19 ∷ 12 ∷ [];
  accounts =
      codes "liquidity_book_config"
      ∷ codes "preset_authority"
      ∷ codes "event_authority"
      ∷ codes "program"
      ∷ [];
}

abbrev update_bin_step_config : IdlInstruction
update_bin_step_config = record {
  name = codes "update_bin_step_config";
  discriminator = 205 ∷ 204 ∷ 206 ∷ 220 ∷ 251 ∷ 239 ∷ 19 ∷ 238 ∷ [];
  accounts =
      codes "liquidity_book_config"
      ∷ codes "bin_step_config"
      ∷ codes "preset_authority"
      ∷ codes "event_authority"
      ∷ codes "program"
      ∷ [];
}

abbrev update_pair_static_fee_parameters : IdlInstruction
update_pair_static_fee_parameters = record {
  name = codes "update_pair_static_fee_parameters";
  discriminator = 20 ∷ 223 ∷ 186 ∷ 73 ∷ 199 ∷ 65 ∷ 45 ∷ 80 ∷ [];
  accounts =
      codes "liquidity_book_config"
      ∷ codes "pair"
      ∷ codes "preset_authority"
      ∷ codes "system_program"
      ∷ codes "event_authority"
      ∷ codes "program"
      ∷ [];
}

abbrev update_quote_asset_badge : IdlInstruction
update_quote_asset_badge = record {
  name = codes "update_quote_asset_badge";
  discriminator = 42 ∷ 12 ∷ 208 ∷ 17 ∷ 29 ∷ 174 ∷ 196 ∷ 103 ∷ [];
  accounts =
      codes "liquidity_book_config"
      ∷ codes "quote_asset_badge"
      ∷ codes "token_mint"
      ∷ codes "preset_authority"
      ∷ codes "event_authority"
      ∷ codes "program"
      ∷ [];
}

abbrev withdraw_protocol_fees : IdlInstruction
withdraw_protocol_fees = record {
  name = codes "withdraw_protocol_fees";
  discriminator = 11 ∷ 68 ∷ 165 ∷ 98 ∷ 18 ∷ 208 ∷ 134 ∷ 73 ∷ [];
  accounts =
      codes "liquidity_book_config"
      ∷ codes "pair"
      ∷ codes "token_mint_x"
      ∷ codes "token_mint_y"
      ∷ codes "token_vault_x"
      ∷ codes "token_vault_y"
      ∷ codes "protocol_vault_x"
      ∷ codes "protocol_vault_y"
      ∷ codes "token_program_x"
      ∷ codes "token_program_y"
      ∷ codes "preset_authority"
      ∷ codes "memo_program"
      ∷ codes "event_authority"
      ∷ codes "program"
      ∷ [];
}

abbrev pub idl_instructions : List IdlInstruction
idl_instructions =
    accept_config_ownership ∷ close_position ∷ create_position ∷ decrease_position
    ∷ increase_position ∷ initialize_bin_array ∷ initialize_bin_step_config ∷ initialize_config
    ∷ initialize_pair ∷ initialize_quote_asset_badge ∷ set_hook ∷ swap ∷ transfer_config_ownership
    ∷ update_bin_step_config ∷ update_pair_static_fee_parameters ∷ update_quote_asset_badge
    ∷ withdraw_protocol_fees ∷ []

abbrev event : Text → List ℕ → IdlEvent
event n d = record { name = n; discriminator = d }

abbrev pub idl_events : List IdlEvent
idl_events =
    event (codes "BinArrayInitializationEvent") (237 ∷ 158 ∷ 3 ∷ 184 ∷ 253 ∷ 238 ∷ 102 ∷ 71 ∷ [])
    ∷ event (codes "BinStepConfigInitializationEvent")
        (2 ∷ 138 ∷ 209 ∷ 132 ∷ 61 ∷ 232 ∷ 124 ∷ 57 ∷ [])
    ∷ event (codes "BinStepConfigUpdateEvent") (241 ∷ 69 ∷ 172 ∷ 53 ∷ 135 ∷ 27 ∷ 238 ∷ 248 ∷ [])
    ∷ event (codes "BinSwapEvent") (55 ∷ 42 ∷ 192 ∷ 194 ∷ 230 ∷ 243 ∷ 9 ∷ 72 ∷ [])
    ∷ event (codes "CompositionFeesEvent") (83 ∷ 234 ∷ 249 ∷ 47 ∷ 88 ∷ 125 ∷ 2 ∷ 86 ∷ [])
    ∷ event (codes "LiquidityBookConfigInitializationEvent")
        (90 ∷ 99 ∷ 66 ∷ 116 ∷ 24 ∷ 72 ∷ 145 ∷ 146 ∷ [])
    ∷ event (codes "LiquidityBookConfigTransferOwnershipEvent")
        (181 ∷ 131 ∷ 103 ∷ 224 ∷ 188 ∷ 170 ∷ 226 ∷ 65 ∷ [])
    ∷ event (codes "LiquidityBookConfigTransferOwnershipInitEvent")
        (69 ∷ 165 ∷ 109 ∷ 99 ∷ 223 ∷ 38 ∷ 229 ∷ 100 ∷ [])
    ∷ event (codes "PairInitializationEvent") (132 ∷ 133 ∷ 209 ∷ 222 ∷ 229 ∷ 215 ∷ 206 ∷ 245 ∷ [])
    ∷ event (codes "PairStaticFeeParametersUpdateEvent")
        (57 ∷ 109 ∷ 202 ∷ 252 ∷ 154 ∷ 9 ∷ 121 ∷ 131 ∷ [])
    ∷ event (codes "PositionCreationEvent") (97 ∷ 21 ∷ 205 ∷ 201 ∷ 62 ∷ 41 ∷ 111 ∷ 164 ∷ [])
    ∷ event (codes "PositionDecreaseEvent") (200 ∷ 116 ∷ 151 ∷ 126 ∷ 182 ∷ 237 ∷ 245 ∷ 254 ∷ [])
    ∷ event (codes "PositionIncreaseEvent") (247 ∷ 40 ∷ 58 ∷ 113 ∷ 28 ∷ 175 ∷ 60 ∷ 174 ∷ [])
    ∷ event (codes "ProtocolFeesCollectionEvent") (196 ∷ 36 ∷ 190 ∷ 66 ∷ 172 ∷ 52 ∷ 142 ∷ 15 ∷ [])
    ∷ event (codes "QuoteAssetBadgeInitializationEvent")
        (202 ∷ 110 ∷ 93 ∷ 186 ∷ 165 ∷ 96 ∷ 200 ∷ 27 ∷ [])
    ∷ event (codes "QuoteAssetBadgeUpdateEvent") (102 ∷ 149 ∷ 171 ∷ 236 ∷ 123 ∷ 73 ∷ 205 ∷ 194 ∷ [])
    ∷ []

-- `types`: the names that `decodeType` looks up.
abbrev pub idl_types : List Text
idl_types =
    codes "Bin"
    ∷ codes "BinArray"
    ∷ codes "BinArrayInitializationEvent"
    ∷ codes "BinLiquidityDistribution"
    ∷ codes "BinStepConfig"
    ∷ codes "BinStepConfigInitializationEvent"
    ∷ codes "BinStepConfigUpdateEvent"
    ∷ codes "BinSwapEvent"
    ∷ codes "CompositionFeesEvent"
    ∷ codes "ConfigAvailability"
    ∷ codes "ConfigStatus"
    ∷ codes "DynamicFeeParameters"
    ∷ codes "LiquidityBookConfig"
    ∷ codes "LiquidityBookConfigInitializationEvent"
    ∷ codes "LiquidityBookConfigTransferOwnershipEvent"
    ∷ codes "LiquidityBookConfigTransferOwnershipInitEvent"
    ∷ codes "Pair"
    ∷ codes "PairInitializationEvent"
    ∷ codes "PairStaticFeeParametersUpdateEvent"
    ∷ codes "Position"
    ∷ codes "PositionCreationEvent"
    ∷ codes "PositionDecreaseEvent"
    ∷ codes "PositionIncreaseEvent"
    ∷ codes "ProtocolFeesCollectionEvent"
    ∷ codes "QuoteAssetBadge"
    ∷ codes "QuoteAssetBadgeInitializationEvent"
    ∷ codes "QuoteAssetBadgeStatus"
    ∷ codes "QuoteAssetBadgeUpdateEvent"
    ∷ codes "StaticFeeParameters"
    ∷ codes "SwapType"
    ∷ []
