-- ===== src/Positions/Change.antt =====
-- What processIncreasePosition (increase-position.processor.ts) and processDecreasePosition
-- (decrease-position.processor.ts) share: the pair and the position are looked up, the bins of the
-- event are processed, and the pair's reserves are written from the pair that was read first.
pub mod Written
pub mod Retry
pub mod Keeps
pub mod Throws
pub mod Total
use saros_dlmm_indexer.Base.{⊤, ℕ, Option, none, some, List, if◌then◌else◌}
use saros_dlmm_indexer.Base.Int.{ℤ, pos}
use saros_dlmm_indexer.Text.{Text, eq_text}
use saros_dlmm_indexer.Text.Decimal.{int_to_text}
use saros_dlmm_indexer.Schemas.{Pair, Position, ParsedInstructionMessage, Instruction}
use saros_dlmm_indexer.Store.World.{
  Db, World, Action, Result, ok, err, ◌>>=◌, ◌>>◌, pure, or_throw, gets, modify, no_pair,
  no_position,
}
use saros_dlmm_indexer.Library.{event_identifier, split_at, decode_type}
use saros_dlmm_indexer.Instruction.{
  ProcessorName, Check, already_processed, inserted, check_and_insert_instruction,
}
use saros_dlmm_indexer.Positions.Update.{BinChanges, big_int, process_bins}

-- `PositionIncreaseEvent` and `PositionDecreaseEvent`, the amounts as they come from the coder.
pub record PositionEvent : Type 0 where
  pub pair : Text
  pub position : Text
  pub bin_ids : List ℕ
  pub amounts_x : List ℕ
  pub amounts_y : List ℕ
  pub liquidity : List ℕ

-- `decodeIncreasePositionEvent` and `decodeDecreasePositionEvent`, at the discriminator and the
-- type name of each: null where the bytes are another event's, and where anything throws.
module _ (bs58_decode : Text → Option (List ℕ)) (coder : List ℕ → Option PositionEvent)
    (discriminator : List ℕ) (type_name : Text) where
  unfoldable pub event_of : Option (Option PositionEvent) → Option PositionEvent
  event_of (some (some e)) = some e
  event_of _ = none

  unfoldable pub after_discriminator : Option (List ℕ × List ℕ) → Option PositionEvent
  unfolding event_of
  after_discriminator none = none
  after_discriminator (some (d, event_data)) =
      if eq_text d discriminator then event_of (decode_type coder type_name event_data) else none

  unfoldable pub after_identifier : Option (List ℕ × List ℕ) → Option PositionEvent
  unfolding after_discriminator
  after_identifier none = none
  after_identifier (some (identifier, remaining)) =
      if eq_text identifier event_identifier
      then after_discriminator (split_at remaining 8)
      else none

  unfoldable pub decode_position_event : Text → Option PositionEvent
  unfolding after_identifier
  decode_position_event data_base58 = elim (bs58_decode data_base58) [
    | none ↦ none
    | some bytes ↦ after_identifier (split_at bytes 8)
  ]

module _ {db : Db} (op : ℤ → ℤ → ℤ) (delta : ℤ → ℤ) (now : ℕ → ℕ) where
  unfoldable pub write_pair : Text → Pair → ℤ × ℤ → Action db ⊤
  write_pair id pair (total_x, total_y) = do
    x ← big_int pair.reserve_x
    y ← big_int pair.reserve_y
    modify (λ w. record w {
      pairs =
          db.pairs.update_one id
            (λ p. record p {
              reserve_x = int_to_text (op x total_x);
              reserve_y = int_to_text (op y total_y);
            })
            w.pairs;
    })

  unfoldable pub change_bins :
      BinChanges → ParsedInstructionMessage → Text → Pair → Position → Action db ⊤
  unfolding write_pair
  change_bins c m instruction_id pair position = do
    totals ←
        process_bins op delta c m instruction_id position.lower_bin_lb_id now 0 c.bin_ids
          (pos 0, pos 0)
    write_pair c.pair pair totals

  unfoldable pub process_position : BinChanges → ParsedInstructionMessage → Text → Action db ⊤
  unfolding change_bins
  process_position c m instruction_id = do
    found_pair ← gets (λ w. db.pairs.find_one c.pair w.pairs)
    pair ← or_throw found_pair no_pair
    found_position ← gets (λ w. db.positions.find_one c.position w.positions)
    position ← or_throw found_position no_position
    change_bins c m instruction_id pair position

  module _ (name : ProcessorName) (m : ParsedInstructionMessage) where
    unfoldable pub after_check : BinChanges → Check → Action db ⊤
    unfolding process_position
    after_check c already_processed = pure tt
    after_check c (inserted d) = process_position c m d.id

    -- `process(job)` from the decoded event on.
    unfoldable pub process_decoded : Option BinChanges → Action db ⊤
    unfolding after_check
    process_decoded none = pure tt
    process_decoded (some c) = do check ← check_and_insert_instruction m name; after_check c check
