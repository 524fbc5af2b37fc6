-- ===== src/Instruction/Dedup.antt =====
-- What `checkAndInsertInstruction` does on each branch.
use saros_dlmm_indexer.Base.{
  ◌≡◌, ◌≢◌, Option, none, some, if◌then◌else◌, is_some, arith, Option-cases, inl, inr,
}
use saros_dlmm_indexer.Text.{Text, eq_text, eq_text_iff, eq_text_refl}
use saros_dlmm_indexer.Schemas.{Instruction, ParsedInstructionMessage}
use saros_dlmm_indexer.Store.Lemmas.{exists_where_id}
use saros_dlmm_indexer.Store.World.{Db, World, ok}
use saros_dlmm_indexer.Instruction.{
  ProcessorName, id_of, record_of, already_processed, inserted, store_instruction,
  is_instruction_processed, check_and_insert_instruction,
}

module _ (db : Db) where
  -- The record stored under an id, if any.
  abbrev pub recorded : Text → World db → Option Instruction
  recorded id w = db.instructions.find_one id w.instructions

  -- `s` holds the record of a job's instruction for a processor, and every other record of `w`.
  abbrev pub Recorded :
      ParsedInstructionMessage → ProcessorName → World db → db.instructions.State → Type 0
  Recorded m p w s =
      (j : Text)
      → db.instructions.find_one j s
        ≡ (if eq_text (id_of m p) j then some (record_of m p) else recorded j w)

  pub is_instruction_processed_lem :
      (id : Text) (w : World db) → is_instruction_processed id w ≡ (ok (is_some (recorded id w)), w)
  unfolding is_instruction_processed
  is_instruction_processed_lem id w = rw (exists_where_id db.instructions id w.instructions)

  pub check_and_insert_seen :
      (m : ParsedInstructionMessage) (p : ProcessorName) (w : World db) {d : Instruction}
      → recorded (id_of m p) w ≡ some d
      → check_and_insert_instruction m p w ≡ (ok already_processed, w)
  unfolding check_and_insert_instruction
  check_and_insert_seen m p w h = rw (exists_where_id db.instructions (id_of m p) w.instructions, h)

  pub check_and_insert_fresh :
      (m : ParsedInstructionMessage) (p : ProcessorName) (w : World db)
      → recorded (id_of m p) w ≡ none
      → (s : db.instructions.State) × (check_and_insert_instruction m p w
          ≡ (ok (inserted (record_of m p)), record w { instructions = s }))
        × ((j : Text)
            → db.instructions.find_one j s
              ≡ (if eq_text (id_of m p) j then some (record_of m p) else recorded j w))
  unfolding check_and_insert_instruction store_instruction
  check_and_insert_fresh m p w h =
      let (s, made, looks) = db.instructions.create_fresh (record_of m p) w.instructions h in
      (s, ground (arith, exists_where_id db.instructions (id_of m p) w.instructions), looks)

  -- Whatever the state, a call leaves the instruction recorded: a second call for the same job and
  -- processor, made at once, reports it as processed and changes nothing.
  pub check_and_insert_twice :
      (m : ParsedInstructionMessage) (p : ProcessorName) (w : World db)
      → let w' = (check_and_insert_instruction m p w).1 in
        check_and_insert_instruction m p w' ≡ (ok already_processed, w')
  check_and_insert_twice m p w = elim (Option-cases (recorded (id_of m p) w)) [
    | inr (d, seen) ↦ rw (check_and_insert_seen m p w seen) (check_and_insert_seen m p w seen)
    | inl fresh ↦
        let (s, made, looks) = check_and_insert_fresh m p w fresh in
        rw made (
          check_and_insert_seen m p (record w { instructions = s }) {d = record_of m p}
            (rw (looks (id_of m p), eq_text_refl (id_of m p))))
  ]

  -- A call records only the id of its own job: what is stored under any other id stays.
  pub check_and_insert_others :
      (m : ParsedInstructionMessage) (p : ProcessorName) (j : Text) (w : World db)
      → j ≢ id_of m p
      → recorded j (check_and_insert_instruction m p w).1 ≡ recorded j w
  check_and_insert_others m p j w ne = elim (Option-cases (recorded (id_of m p) w)) [
    | inr (d, seen) ↦ rw (check_and_insert_seen m p w seen)
    | inl fresh ↦
        let (s, made, looks) = check_and_insert_fresh m p w fresh in
        rw made (ground (arith, looks j, eq_text_iff (id_of m p) j))
  ]
