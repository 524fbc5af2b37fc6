-- ===== src/Positions/Decrease.antt =====
-- decrease-position.processor.ts: the amounts of a PositionDecreaseEvent are subtracted from shares,
-- bins and pair. The decoder makes strings of them, and `BigInt - string` is a TypeError.
pub mod Throws
use saros_dlmm_indexer.Base.{⊤, ℕ, Option, none, some, List, [], ◌∷◌, get_elem?}
use saros_dlmm_indexer.Base.Int.{ℤ, ◌-ℤ◌, neg}
use saros_dlmm_indexer.Text.{Text, codes}
use saros_dlmm_indexer.Text.Decimal.{nat_to_text}
use saros_dlmm_indexer.Schemas.{ParsedInstructionMessage}
use saros_dlmm_indexer.Store.World.{Db, Action, Result, ok, err, type_error}
use saros_dlmm_indexer.Instruction.{decrease_position}
use saros_dlmm_indexer.Positions.Update.{BinChanges}
use saros_dlmm_indexer.Positions.Change.{
  PositionEvent, decode_position_event, process_position, process_decoded,
}
use mathlib.Core.Option

abbrev position_decrease_event_discriminator : List ℕ
position_decrease_event_discriminator = 200 ∷ 116 ∷ 151 ∷ 126 ∷ 182 ∷ 237 ∷ 245 ∷ 254 ∷ []

-- What JavaScript holds at an index of the decoded arrays.
pub data JsValue : Type 0 where
  undefined : JsValue
  string : Text → JsValue
  bigint : ℤ → JsValue

-- `BigInt - value`: only a BigInt can be subtracted from a BigInt.
abbrev pub subtrahend : JsValue → Result ℤ
subtrahend (bigint z) = ok z
subtrahend _ = err type_error

-- `amounts.map((amount: BN) => amount.toString())`, at an index.
abbrev pub to_string_at : List ℕ → ℕ → JsValue
to_string_at ns i = elim (get_elem? ns i) [ none ↦ undefined | some n ↦ string (nat_to_text n) ]

abbrev pub operand : List ℕ → ℕ → Result ℤ
operand ns i = subtrahend (to_string_at ns i)

abbrev pub changes_of : PositionEvent → BinChanges
changes_of e = record {
  pair = e.pair;
  position = e.position;
  bin_ids = e.bin_ids;
  amount_x = operand e.amounts_x;
  amount_y = operand e.amounts_y;
  liquidity = operand e.liquidity;
}

unfoldable pub decode_decrease_position_event :
    (Text → Option (List ℕ)) → (List ℕ → Option PositionEvent) → Text → Option PositionEvent
decode_decrease_position_event bs58_decode coder =
    decode_position_event bs58_decode coder position_decrease_event_discriminator
      (codes "PositionDecreaseEvent")

module _ {db : Db} (now : ℕ → ℕ) where
  unfoldable pub process_decrease_position :
      PositionEvent → ParsedInstructionMessage → Text → Action db ⊤
  process_decrease_position e m instruction_id =
      process_position ◌-ℤ◌ neg now (changes_of e) m instruction_id

  unfoldable pub process :
      (Text → Option (List ℕ))
      → (List ℕ → Option PositionEvent)
      → ParsedInstructionMessage
      → Action db ⊤
  process bs58_decode coder m = process_decoded ◌-ℤ◌ neg now decrease_position m (
      Option.map changes_of
        (decode_decrease_position_event bs58_decode coder m.instruction.data_base58))
