-- ===== src/Positions/Close.antt =====
-- close-position.processor.ts: a position and its shares are deleted, once a decrease of the same
-- instruction has been recorded.
pub mod Order
use saros_dlmm_indexer.Base.{
  ⊤, ℕ, ◌==◌, Bool, true, false, ◌&&◌, not, Option, none, some, List, if◌then◌else◌,
}
use saros_dlmm_indexer.Text.{Text, eq_text}
use saros_dlmm_indexer.Schemas.{
  Instruction, Position, ParsedInstructionMessage, PartiallyDecodedInstruction,
}
use saros_dlmm_indexer.Store.World.{
  Db, World, Action, Result, ok, err, ◌>>=◌, ◌>>◌, pure, throw_if, or_throw, gets, modify,
  close_before_decrease, no_position, pair_mismatch, not_deleted,
}
use saros_dlmm_indexer.Idl.{IdlInstruction}
use saros_dlmm_indexer.Library.{decode_instruction}
use saros_dlmm_indexer.Instruction.{
  name_text, close_position, decrease_position, Check, already_processed, inserted,
  check_and_insert_instruction,
}
use saros_dlmm_indexer.Positions.Accounts.{PositionAccounts, position_accounts}

module _ {A : Type 0} where
  unfoldable pub accounts_of :
      Option (Option (IdlInstruction × Option A)) → List Text → Option PositionAccounts
  accounts_of (some (some (ix, decoded))) accounts = position_accounts ix accounts
  accounts_of _ accounts = none

  -- `decodeClosePositionInstruction`: null where anything throws; the decoded data is not used.
  unfoldable pub decode_close_position_instruction :
      (Text → Option (List ℕ))
      → (Text → Option (Option A))
      → PartiallyDecodedInstruction
      → Option PositionAccounts
  unfolding accounts_of
  decode_close_position_instruction bs58_decode coder ix =
      accounts_of (decode_instruction bs58_decode coder ix.data_base58) ix.accounts

-- The filter of `exists`: the processor's name is as the enum has it.
abbrev pub is_decrease_of : Text → ℕ → ℕ → Instruction → Bool
is_decrease_of signature index block_number d =
    eq_text d.signature signature
    && eq_text d.processor_name (name_text decrease_position)
    && (d.index == index)
    && (d.block_number == block_number)

module _ {db : Db} where
  delete_position : PositionAccounts → Position → Action db ⊤
  delete_position d position = do
    throw_if (not (eq_text position.pair_id d.pair)) pair_mismatch
    modify (λ w. record w {
      shares = db.shares.delete_many (λ s. eq_text s.position_id d.position) w.shares;
    })
    count ← gets (λ w. (db.positions.delete_one d.position w.positions).0)
    modify (λ w. record w { positions = (db.positions.delete_one d.position w.positions).1 })
    throw_if (count == 0) not_deleted

  pub process_close_position : PositionAccounts → ParsedInstructionMessage → Action db ⊤
  unfolding delete_position
  process_close_position d m = do
    is_indexed_decrease_position ← gets (λ w.
        db.instructions.exists_where (is_decrease_of m.signature m.instruction_index m.block_number)
          w.instructions)
    throw_if (not is_indexed_decrease_position) close_before_decrease
    found ← gets (λ w. db.positions.find_one d.position w.positions)
    position ← or_throw found no_position
    delete_position d position

  after_check : PositionAccounts → ParsedInstructionMessage → Check → Action db ⊤
  unfolding process_close_position
  after_check d m already_processed = pure tt
  after_check d m (inserted i) = process_close_position d m

  process_decoded : ParsedInstructionMessage → Option PositionAccounts → Action db ⊤
  unfolding after_check
  process_decoded m none = pure tt
  process_decoded m (some d) = do
    check ← check_and_insert_instruction m close_position
    after_check d m check

  pub process :
      {A : Type 0}
      → (Text → Option (List ℕ))
      → (Text → Option (Option A))
      → ParsedInstructionMessage
      → Action db ⊤
  unfolding process_decoded
  process bs58_decode coder m =
      process_decoded m (decode_close_position_instruction bs58_decode coder m.instruction)
