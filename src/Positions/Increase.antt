-- ===== src/Positions/Increase.antt =====
-- increase-position.processor.ts: the amounts of a PositionIncreaseEvent are added to shares, bins
-- and pair. The coder makes BigInts of them.
pub mod Amounts
use saros_dlmm_indexer.Base.{⊤, ℕ, Option, none, some, List, [], ◌∷◌, get_elem?}
use saros_dlmm_indexer.Base.Int.{ℤ, pos, ◌+ℤ◌}
use saros_dlmm_indexer.Text.{Text, codes}
use saros_dlmm_indexer.Schemas.{ParsedInstructionMessage}
use saros_dlmm_indexer.Store.World.{Db, Action, Result, ok, err, type_error}
use saros_dlmm_indexer.Instruction.{increase_position}
use saros_dlmm_indexer.Positions.Update.{BinChanges}
use saros_dlmm_indexer.Positions.Change.{
  PositionEvent, decode_position_event, process_position, process_decoded,
}
use mathlib.Core.Option

abbrev position_increase_event_discriminator : List ℕ
position_increase_event_discriminator = 247 ∷ 40 ∷ 58 ∷ 113 ∷ 28 ∷ 175 ∷ 60 ∷ 174 ∷ []

-- `BigInt + bigints[index]`: an index out of range reads undefined, a TypeError.
abbrev pub big_int_operand : List ℕ → ℕ → Result ℤ
big_int_operand ns i = elim (get_elem? ns i) [ none ↦ err type_error | some n ↦ ok (pos n) ]

abbrev pub changes_of : PositionEvent → BinChanges
changes_of e = record {
  pair = e.pair;
  position = e.position;
  bin_ids = e.bin_ids;
  amount_x = big_int_operand e.amounts_x;
  amount_y = big_int_operand e.amounts_y;
  liquidity = big_int_operand e.liquidity;
}

unfoldable pub decode_increase_position_event :
    (Text → Option (List ℕ)) → (List ℕ → Option PositionEvent) → Text → Option PositionEvent
decode_increase_position_event bs58_decode coder =
    decode_position_event bs58_decode coder position_increase_event_discriminator
      (codes "PositionIncreaseEvent")

module _ {db : Db} (now : ℕ → ℕ) where
  unfoldable pub process_increase_position :
      PositionEvent → ParsedInstructionMessage → Text → Action db ⊤
  process_increase_position e m instruction_id =
      process_position ◌+ℤ◌ (λ z. z) now (changes_of e) m instruction_id

  unfoldable pub process :
      (Text → Option (List ℕ))
      → (List ℕ → Option PositionEvent)
      → ParsedInstructionMessage
      → Action db ⊤
  process bs58_decode coder m =
      process_decoded ◌+ℤ◌ (λ z. z) now increase_position m
        (Option.map changes_of
          (decode_increase_position_event bs58_decode coder m.instruction.data_base58))
