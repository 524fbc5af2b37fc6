-- ===== src/Positions/Change/Retry.antt =====
-- A job of a position's change that ran once, to whatever end, and runs again.
use saros_dlmm_indexer.Base.{ℕ, ◌≡◌, refl, ◌∙◌, ap, inl, inr, Option, none, some, Option-cases}
use saros_dlmm_indexer.Base.Int.{ℤ}
use saros_dlmm_indexer.Text.{eq_text_refl}
use saros_dlmm_indexer.Schemas.{ParsedInstructionMessage, Instruction}
use saros_dlmm_indexer.Store.World.{Db, World, ok, >>=-of-ok}
use saros_dlmm_indexer.Store.Keeps.{records}
use saros_dlmm_indexer.Instruction.{ProcessorName, check_and_insert_instruction, id_of, record_of}
use saros_dlmm_indexer.Instruction.Dedup.{
  recorded, Recorded, check_and_insert_seen, check_and_insert_fresh,
}
use saros_dlmm_indexer.Positions.Update.{BinChanges}
use saros_dlmm_indexer.Positions.Change.Keeps.{records-Unseen, process_position-Keeps}
use saros_dlmm_indexer.Positions.Change.{process_position, after_check, process_decoded}

module _ {db : Db} (op : ℤ → ℤ → ℤ) (delta : ℤ → ℤ) (now : ℕ → ℕ) where
  module _ (name : ProcessorName) (m : ParsedInstructionMessage) where
    process_decoded-none : (w : World db) → process_decoded op delta now name m none w ≡ (ok tt, w)
    unfolding process_decoded
    process_decoded-none w = refl

    pub process_decoded_seen :
        (c : BinChanges) (w : World db) {d : Instruction}
        → recorded db (id_of m name) w ≡ some d
        → process_decoded op delta now name m (some c) w ≡ (ok tt, w)
    unfolding process_decoded after_check
    process_decoded_seen c w e =
        >>=-of-ok (check_and_insert_instruction m name) (after_check op delta now name m c) w
          (check_and_insert_seen db m name w e)

    -- Where the instruction is not recorded yet, it is recorded, and only then is it processed.
    pub process_decoded_fresh :
        (c : BinChanges) (w : World db)
        → recorded db (id_of m name) w ≡ none
        → (s : db.instructions.State) × (process_decoded op delta now name m (some c) w
            ≡ process_position op delta now c m (id_of m name) (record w { instructions = s }))
          × Recorded db m name w s
    unfolding process_decoded after_check
    process_decoded_fresh c w e =
        let (s, made, looks) = check_and_insert_fresh db m name w e in
        (
          s,
          >>=-of-ok (check_and_insert_instruction m name) (after_check op delta now name m c) w
              made,
          looks,
        )

    process_decoded_records :
        (c : BinChanges) (w : World db)
        → (d : Instruction) × (recorded db
              (id_of m name)
              (process_decoded op delta now name m (some c) w).1
            ≡ some d)
    process_decoded_records c w = elim (Option-cases (recorded db (id_of m name) w)) [
      | inr (d, e) ↦ (d, rw (process_decoded_seen c w e) e)
      | inl e ↦
          let (s, runs, there) = process_decoded_fresh c w e in
          (
            record_of m name,
            rw runs (
                ap (db.instructions.find_one (id_of m name)) (
                  process_position-Keeps (records db) records-Unseen op delta now c m (id_of m name)
                    (record w { instructions = s }))
                ∙ there (id_of m name)
                ∙ rw (eq_text_refl (id_of m name)) refl),
          )
    ]

    -- A job that ran once, whether it returned or threw, does nothing when it runs again: it
    -- returns, and what an interrupted run left undone stays undone.
    pub process_decoded_retry :
        (o : Option BinChanges) (w : World db)
        → let w' = (process_decoded op delta now name m o w).1 in
          process_decoded op delta now name m o w' ≡ (ok tt, w')
    process_decoded_retry none w = rw (process_decoded-none w) (process_decoded-none w)
    process_decoded_retry (some c) w =
        let (d, e) = process_decoded_records c w in
        process_decoded_seen c (process_decoded op delta now name m (some c) w).1 e
