-- ===== src/Tests/Lifecycle.antt =====
-- Examples for creating and closing positions.
use saros_dlmm_indexer.Base.{⊤, ℕ, ◌≡◌, refl, Option, none, some, List, [], ◌∷◌}
use saros_dlmm_indexer.Text.{Text, eq_text, codes}
use saros_dlmm_indexer.Store.Listed.{listed, find_one, exists_from}
use saros_dlmm_indexer.Store.World.{World, ok, err, close_before_decrease}
use saros_dlmm_indexer.Positions.Update.{share_id}
use saros_dlmm_indexer.Library.{decode_instruction, find_instruction, get_account, find_index}
use saros_dlmm_indexer.Instruction.{close_position}
use saros_dlmm_indexer.Positions.Accounts.{PositionAccounts, position_accounts, to_strings}
use saros_dlmm_indexer.Positions.Close
use saros_dlmm_indexer.Positions.Close.{decode_close_position_instruction}
use saros_dlmm_indexer.Positions.Close.Order.{LowerCased, process_blocked}
use saros_dlmm_indexer.Store.World.{◌>>◌}
use saros_dlmm_indexer.Positions.Update.{bin_per_position}
use saros_dlmm_indexer.Positions.Close.{process_close_position, is_decrease_of}
use saros_dlmm_indexer.Instruction.Dedup.{Recorded}
use saros_dlmm_indexer.Positions.Create.{
  PositionCreationEvent, upsert_from_instruction, upsert_from_event,
}
use saros_dlmm_indexer.Positions.Create.Shares.{SharesFresh}
use saros_dlmm_indexer.Positions.Create.Order.{
  position_in, MintFree, Merged, instruction_then_event, event_then_instruction,
}
use saros_dlmm_indexer.Tests.{nothing_recorded, sample_db, sample_world, sample_job}

abbrev close_bytes : Text → Option (List ℕ)
close_bytes data_base58 = some (123 ∷ 134 ∷ 81 ∷ 0 ∷ 49 ∷ 68 ∷ 98 ∷ 98 ∷ [])

abbrev no_args : Text → Option (Option ⊤)
no_args data_base58 = some (some tt)

abbrev sample_accounts : PositionAccounts
sample_accounts = record {
  pair = codes "A";
  position = codes "P";
  position_mint = codes "M";
  position_token_account = codes "K";
}

close_decodes :
    decode_close_position_instruction close_bytes no_args sample_job.instruction
    ≡ some sample_accounts
unfolding decode_close_position_instruction Close.accounts_of decode_instruction find_instruction
    position_accounts to_strings get_account find_index eq_text
close_decodes = refl

empty-LowerCased : LowerCased sample_db sample_world
unfolding LowerCased sample_db sample_world listed find_one
empty-LowerCased k d h = cc

process_blocked_example :
    (s : sample_db.instructions.State) × (Close.process close_bytes no_args sample_job sample_world
      ≡ (err close_before_decrease, record sample_world { instructions = s }))
    × Recorded sample_db sample_job close_position sample_world s
process_blocked_example =
    process_blocked close_bytes no_args sample_job sample_accounts sample_world close_decodes
      empty-LowerCased (nothing_recorded close_position)

-- A position that is not stored yet, as its instruction and its event describe it.
abbrev new_accounts : PositionAccounts
new_accounts = record {
  pair = codes "A";
  position = codes "U";
  position_mint = codes "N";
  position_token_account = codes "K";
}

abbrev new_event : PositionCreationEvent
new_event = record {
  pair = codes "A";
  position = codes "U";
  position_mint = codes "N";
  lower_bin_id = 8;
  upper_bin_id = 71;
}

new_position : position_in {db = sample_db} (codes "U") sample_world ≡ none
unfolding sample_db sample_world listed find_one eq_text
new_position = refl

new_shares : SharesFresh sample_db (codes "U") 0 bin_per_position sample_world.shares
unfolding sample_db sample_world listed find_one eq_text share_id
new_shares k le lt = refl

new_mint : MintFree {db = sample_db} (codes "U") (codes "N") sample_world
unfolding sample_db sample_world listed exists_from eq_text
new_mint = refl

instruction_then_event_example :
    (w' : World sample_db) × ((upsert_from_instruction new_accounts (codes "O")
          >> upsert_from_event new_event)
        sample_world
      ≡ (ok tt, w'))
    × Merged new_accounts (codes "O") new_event sample_world w'
instruction_then_event_example =
    instruction_then_event new_accounts (codes "O") new_event sample_world refl new_position
      new_mint new_shares

event_then_instruction_example :
    (w' : World sample_db) × ((upsert_from_event new_event
          >> upsert_from_instruction new_accounts (codes "O"))
        sample_world
      ≡ (ok tt, w'))
    × Merged new_accounts (codes "O") new_event sample_world w'
event_then_instruction_example =
    event_then_instruction new_accounts (codes "O") new_event sample_world refl refl new_position
      new_mint new_mint new_shares

-- The same position, with the mint of the one that is stored.
abbrev clashing_accounts : PositionAccounts
clashing_accounts = record new_accounts { position_mint = codes "M" }
