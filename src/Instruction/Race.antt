-- ===== src/Instruction/Race.antt =====
-- Two workers with the same job: `checkAndInsertInstruction` awaits the lookup and then the insertion,
-- and other steps may come between the two. A schedule says whose step is next.
use saros_dlmm_indexer.Base.{
  ◌≡◌, refl, Bool, true, false, none, List, [], ◌∷◌, arith, ap, sym, subst, inl, inr, Option-cases,
  is_some,
}
use saros_dlmm_indexer.Text.{eq_text_refl}
use saros_dlmm_indexer.Schemas.{ParsedInstructionMessage}
use saros_dlmm_indexer.Store.World.{
  Db, World, Result, ok, err, duplicate_key, pure, >>=-of-ok, >>=-of-err,
}
use saros_dlmm_indexer.Instruction.{
  ProcessorName, id_of, record_of, Check, inserted, store_instruction, insert_instruction,
  insert_unless_processed, is_instruction_processed,
}
use saros_dlmm_indexer.Instruction.Dedup.{recorded, is_instruction_processed_lem}

-- Where a worker stands: before the lookup, between the two, or done.
pub data Worker : Type 0 where
  waiting : Worker
  looked_up : Result Bool → Worker
  finished : Result Check → Worker

module _ {db : Db} (m : ParsedInstructionMessage) (p : ProcessorName) where
  pub worker_step : Worker → World db → Worker × World db
  worker_step waiting w = let (r, w') = is_instruction_processed (id_of m p) w in (looked_up r, w')
  worker_step (looked_up (ok seen)) w =
      let (r, w') = insert_unless_processed m p seen w in (finished r, w')
  worker_step (looked_up (err x)) w = (finished (err x), w)
  worker_step (finished r) w = (finished r, w)

  -- `true` for a step of the first worker.
  pub run : List Bool → Worker → Worker → World db → Worker × Worker × World db
  unfolding worker_step
  run [] a b w = (a, b, w)
  run (true ∷ turns) a b w = let (a', w') = worker_step a w in run turns a' b w'
  run (false ∷ turns) a b w = let (b', w') = worker_step b w in run turns a b' w'

-- The worker has made the record and goes on to process the instruction.
abbrev pub HasInserted : Worker → Type 0
HasInserted (finished (ok (inserted d))) = Unit
HasInserted _ = ⊥

module _ {db : Db} (m : ParsedInstructionMessage) (p : ProcessorName) where
  abbrev IsRecorded : World db → Type 0
  IsRecorded w = is_some (recorded db (id_of m p) w) ≡ true

  insert_seen :
      (w : World db) → IsRecorded w → insert_unless_processed m p false w ≡ (err duplicate_key, w)
  unfolding insert_unless_processed insert_instruction store_instruction
  insert_seen w h =
      let refused =
        db.instructions.create_duplicate (record_of m p) w.instructions (λ e. ground arith) in
      >>=-of-err (insert_instruction m p) (λ d. pure (inserted d)) w
        (ap (store_instruction (record_of m p) w) refused)

  insert_records :
      (w : World db)
      → recorded db (id_of m p) w ≡ none
      → IsRecorded (insert_unless_processed m p false w).1
  unfolding insert_unless_processed insert_instruction store_instruction
  insert_records w fresh =
      let (s, creates, looks) = db.instructions.create_fresh (record_of m p) w.instructions fresh in
      let runs : insert_unless_processed m p false w
          ≡ (ok (inserted (record_of m p)), record w { instructions = s }) =
        >>=-of-ok (insert_instruction m p) (λ d. pure (inserted d)) w
          (ap (store_instruction (record_of m p) w) creates) in
      subst (λ r. IsRecorded r.1) (sym runs) (rw (looks (id_of m p), eq_text_refl (id_of m p)) refl)

  -- Once there is a record, a step keeps it, and no worker comes to have inserted it.
  step_after :
      (a : Worker) (w : World db)
      → IsRecorded w
      → IsRecorded (worker_step m p a w).1 × (HasInserted (worker_step m p a w).0 → HasInserted a)
  unfolding worker_step insert_unless_processed
  step_after waiting w h = rw (is_instruction_processed_lem db (id_of m p) w) (h, λ i. i)
  step_after (looked_up (ok true)) w h = (h, λ i. i)
  step_after (looked_up (ok false)) w h = rw (insert_seen w h) (h, λ i. i)
  step_after (looked_up (err x)) w h = (h, λ i. i)
  step_after (finished r) w h = (h, λ i. i)

  -- A worker that has inserted has left a record.
  step_records :
      (a : Worker) (w : World db)
      → (HasInserted a → IsRecorded w)
      → HasInserted (worker_step m p a w).0
      → IsRecorded (worker_step m p a w).1
  unfolding worker_step insert_unless_processed
  step_records a w k i = elim (Option-cases (recorded db (id_of m p) w)) [
    | inr (d, seen) ↦ (step_after a w (rw seen refl)).0
    | inl fresh ↦ from a k i fresh
  ]
    where
      from :
          (a : Worker)
          → (HasInserted a → IsRecorded w)
          → HasInserted (worker_step m p a w).0
          → recorded db (id_of m p) w ≡ none
          → IsRecorded (worker_step m p a w).1
      from waiting k i fresh = absurd i
      from (looked_up (ok true)) k i fresh = absurd i
      from (looked_up (ok false)) k i fresh = insert_records w fresh
      from (looked_up (err x)) k i fresh = absurd i
      from (finished r) k i fresh = k i

  Safe : Worker → Worker → World db → Type 0
  Safe a b w =
      ¬ (HasInserted a × HasInserted b)
      × (HasInserted a → IsRecorded w)
      × (HasInserted b → IsRecorded w)

  run-Safe :
      (turns : List Bool) (a b : Worker) (w : World db)
      → Safe a b w
      → let (a', b', w') = run m p turns a b w in Safe a' b' w'
  unfolding run Safe
  run-Safe [] a b w h = h
  run-Safe (true ∷ turns) a b w (one, ra, rb) =
      run-Safe turns (worker_step m p a w).0 b (worker_step m p a w).1 (
        λ (i, j). one ((step_after a w (rb j)).1 i, j),
        step_records a w ra,
        λ j. (step_after a w (rb j)).0,
      )
  run-Safe (false ∷ turns) a b w (one, ra, rb) =
      run-Safe turns a (worker_step m p b w).0 (worker_step m p b w).1 (
        λ (i, j). one (i, (step_after b w (ra i)).1 j),
        λ i. (step_after b w (ra i)).0,
        step_records b w rb,
      )

  -- However the steps of two workers with the same job come to be ordered, and whatever was stored
  -- before, at most one of them inserts the record and goes on to process the instruction.
  pub at_most_one_inserts :
      (turns : List Bool) (w : World db)
      → let (a, b, w') = run m p turns waiting waiting w in ¬ (HasInserted a × HasInserted b)
  unfolding Safe
  at_most_one_inserts turns w =
      (run-Safe turns waiting waiting w (λ (i, j). i, λ i. absurd i, λ j. absurd j)).0
