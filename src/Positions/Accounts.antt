-- ===== src/Positions/Accounts.antt =====
-- `getAccountsByName` as close-position.processor.ts and create-position.processor.ts use it.
use saros_dlmm_indexer.Base.{Option, none, some, List}
use saros_dlmm_indexer.Text.{Text, codes}
use saros_dlmm_indexer.Idl.{IdlInstruction}
use saros_dlmm_indexer.Library.{get_account}

-- The accounts of a position's instruction, as base58 texts.
pub record PositionAccounts : Type 0 where
  pub pair : Text
  pub position : Text
  pub position_mint : Text
  pub position_token_account : Text

-- `toString()` of each; of a missing account it throws (`none`).
unfoldable pub to_strings :
    Option Text → Option Text → Option Text → Option Text → Option PositionAccounts
to_strings (some pair) (some position) (some mint) (some account) = some (record {
  pair = pair;
  position = position;
  position_mint = mint;
  position_token_account = account;
})
to_strings _ _ _ _ = none

unfoldable pub position_accounts : IdlInstruction → List Text → Option PositionAccounts
unfolding to_strings
position_accounts ix accounts =
    to_strings (get_account ix accounts (codes "pair")) (get_account ix accounts (codes "position"))
      (get_account ix accounts (codes "position_mint"))
      (get_account ix accounts (codes "position_token_account"))
