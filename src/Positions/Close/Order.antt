-- ===== src/Positions/Close/Order.antt =====
-- When a position is closed. `check_and_insert_instruction` stores processor names in lower case, and
-- the filter of the close looks for the name of the decrease processor as the enum spells it.
use saros_dlmm_indexer.Base.{
  ℕ, ◌≡◌, ◌∙◌, refl, inl, inr, false, Option, none, some, List, arith, Option-cases, Bool-cases,
}
use saros_dlmm_indexer.Text.{Text, eq_text, to_lower, to_lower_case}
use saros_dlmm_indexer.Schemas.{Instruction, ParsedInstructionMessage}
use saros_dlmm_indexer.Store.World.{Db, World, err, >>=-of-ok, close_before_decrease}
use saros_dlmm_indexer.Instruction.{
  ProcessorName, name_text, decrease_position, close_position, swap, quote_asset, composition_fees,
  update_pair_static_fee_parameters, create_position, increase_position, id_of,
  check_and_insert_instruction,
}
use saros_dlmm_indexer.Instruction.Dedup.{
  recorded, Recorded, check_and_insert_seen, check_and_insert_fresh,
}
use saros_dlmm_indexer.Positions.Accounts.{PositionAccounts}
use saros_dlmm_indexer.Positions.Close.{
  is_decrease_of, process_close_position, process_decoded, process, after_check,
  decode_close_position_instruction,
}

other_spelling :
    (p : ProcessorName)
    → eq_text (to_lower_case (name_text p)) (name_text decrease_position) ≡ false
unfolding eq_text to_lower_case to_lower
other_spelling create_position = refl
other_spelling close_position = refl
other_spelling increase_position = refl
other_spelling decrease_position = refl
other_spelling swap = refl
other_spelling quote_asset = refl
other_spelling composition_fees = refl
other_spelling update_pair_static_fee_parameters = refl

-- Every record of an instruction has a processor name in lower case.
unfoldable pub LowerCased : (db : Db) → World db → Type 0
LowerCased db w =
    (k : Text) (d : Instruction)
    → recorded db k w ≡ some d
    → (p : ProcessorName) × (d.processor_name ≡ to_lower_case (name_text p))

module _ {db : Db} where
  -- Processing an instruction keeps the names of all records in lower case.
  pub check_and_insert-LowerCased :
      (m : ParsedInstructionMessage) (p : ProcessorName) (w : World db)
      → LowerCased db w
      → LowerCased db (check_and_insert_instruction m p w).1
  unfolding LowerCased
  check_and_insert-LowerCased m p w h = elim (Option-cases (recorded db (id_of m p) w)) [
    | inr (d, seen) ↦ rw (check_and_insert_seen db m p w seen) h
    | inl fresh ↦
        let (s, made, looks) = check_and_insert_fresh db m p w fresh in
        rw made (λ k d found. elim (Bool-cases (eq_text (id_of m p) k)) [
          | inl same ↦ (p, ground (arith, looks k))
          | inr other ↦ h k d (ground (arith, looks k))
        ])
  ]

  no_decrease :
      (signature : Text) (index block_number : ℕ) (w : World db)
      → LowerCased db w
      → db.instructions.exists_where (is_decrease_of signature index block_number) w.instructions
        ≡ false
  unfolding LowerCased
  no_decrease signature index block_number w h =
      elim (Bool-cases (
        db.instructions.exists_where (is_decrease_of signature index block_number)
          w.instructions)) [
            | inr absent ↦ absent
            | inl present ↦
                let (k, d, found, holds) =
                  (db.instructions.exists_where_iff (is_decrease_of signature index block_number)
                      w.instructions).0
                    present in
                let (p, lower) = h k d found in absurd (ground (arith, other_spelling p))
          ]

  blocked :
      (d : PositionAccounts) (m : ParsedInstructionMessage) (w : World db)
      → LowerCased db w
      → process_close_position d m w ≡ (err close_before_decrease, w)
  unfolding process_close_position
  blocked d m w h = rw (no_decrease m.signature m.instruction_index m.block_number w h) refl

  -- As long as all records of instructions have been made by `check_and_insert_instruction`, a job
  -- that closes a position, and whose instruction is not yet recorded, throws, whatever decreases have
  -- been processed, and deletes nothing: it leaves behind its own record, and every other record and
  -- everything else is as before.
  pub process_blocked :
      {A : Type 0} (bs58_decode : Text → Option (List ℕ)) (coder : Text → Option (Option A))
      (m : ParsedInstructionMessage) (d : PositionAccounts) (w : World db)
      → decode_close_position_instruction bs58_decode coder m.instruction ≡ some d
      → LowerCased db w
      → recorded db (id_of m close_position) w ≡ none
      → (s : db.instructions.State) × (process bs58_decode coder m w
          ≡ (err close_before_decrease, record w { instructions = s }))
        × Recorded db m close_position w s
  unfolding process process_decoded after_check
  process_blocked bs58_decode coder m d w decodes lower fresh =
      let (s, made, looks) = check_and_insert_fresh db m close_position w fresh in
      let kept = check_and_insert-LowerCased m close_position w lower in
      (
        s,
        rw decodes (
            >>=-of-ok (check_and_insert_instruction m close_position) (after_check d m) w made
            ∙ blocked d m (record w { instructions = s }) (rw made at kept)),
        looks,
      )
