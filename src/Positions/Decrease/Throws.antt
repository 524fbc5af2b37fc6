-- ===== src/Positions/Decrease/Throws.antt =====
-- A decrease that has a bin in it never succeeds.
use saros_dlmm_indexer.Base.{
  ℕ, ◌≡◌, ◌∙◌, inl, inr, Option, none, some, List, ◌∷◌, arith, Option-cases, get_elem?,
}
use saros_dlmm_indexer.Base.Int.{◌-ℤ◌, neg}
use saros_dlmm_indexer.Text.{Text}
use saros_dlmm_indexer.Schemas.{ParsedInstructionMessage}
use saros_dlmm_indexer.Store.World.{Db, World, Error, err, type_error}
use saros_dlmm_indexer.Instruction.{decrease_position, id_of}
use saros_dlmm_indexer.Instruction.Dedup.{recorded, Recorded}
use saros_dlmm_indexer.Positions.Change.{PositionEvent}
use saros_dlmm_indexer.Positions.Change.Retry.{process_decoded_fresh}
use saros_dlmm_indexer.Positions.Change.Throws.{process_position_throws}
use saros_dlmm_indexer.Positions.Decrease.{
  operand, changes_of, decode_decrease_position_event, process,
}

operand_throws : (ns : List ℕ) (i : ℕ) → operand ns i ≡ err type_error
operand_throws ns i = elim (Option-cases (get_elem? ns i)) [
  | inl e ↦ ground arith
  | inr (n, e) ↦ ground arith
]

module _ {db : Db} (now : ℕ → ℕ) (bs58_decode : Text → Option (List ℕ))
    (coder : List ℕ → Option PositionEvent) where
  -- A job whose data is a decrease event with at least one bin, and whose instruction is not yet
  -- recorded, throws whatever the collections hold, and leaves behind the record of the instruction
  -- and nothing else: every other record is as before, and no share, bin or pair is decreased.
  pub process_throws :
      (m : ParsedInstructionMessage) (e : PositionEvent) (lb : ℕ) (ids : List ℕ) (w : World db)
      → decode_decrease_position_event bs58_decode coder m.instruction.data_base58 ≡ some e
      → e.bin_ids ≡ lb ∷ ids
      → recorded db (id_of m decrease_position) w ≡ none
      → (x : Error) × (s : db.instructions.State) × (process now bs58_decode coder m w
          ≡ (err x, record w { instructions = s }))
        × Recorded db m decrease_position w s
  unfolding process
  process_throws m e lb ids w decodes some_bin fresh =
      let (s, runs, looks) =
        process_decoded_fresh ◌-ℤ◌ neg now decrease_position m (changes_of e) w fresh in
      let (x, throws) =
        process_position_throws ◌-ℤ◌ neg now (changes_of e) m (id_of m decrease_position) lb ids
          (record w { instructions = s }) some_bin (operand_throws e.liquidity 0) in
      (x, s, rw decodes (runs ∙ throws), looks)
