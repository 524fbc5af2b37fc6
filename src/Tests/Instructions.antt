-- ===== src/Tests/Instructions.antt =====
-- Examples for the ids and the records of instructions.
use saros_dlmm_indexer.Base.{◌≡◌, ◌≢◌, refl, arith, true, false, [], ◌∷◌}
use saros_dlmm_indexer.Text.{codes, to_lower, to_lower_case}
use saros_dlmm_indexer.Text.Decimal.{nat_to_text, digits}
use saros_dlmm_indexer.Text.Join.{NoDash}
use saros_dlmm_indexer.Instruction.{
  swap, id_of, name_text, generate_instruction_id, already_processed, check_and_insert_instruction,
}
use saros_dlmm_indexer.Instruction.Dedup.{check_and_insert_twice}
use saros_dlmm_indexer.Instruction.Ids.{generate_instruction_id-injective}
use saros_dlmm_indexer.Instruction.Race.{run, waiting, HasInserted, at_most_one_inserts}
use saros_dlmm_indexer.Store.World.{ok}
use saros_dlmm_indexer.Tests.{sample_db, sample_world, sample_job}

check_and_insert_twice_example :
    let w' = (check_and_insert_instruction {db = sample_db} sample_job swap sample_world).1 in
    check_and_insert_instruction sample_job swap w' ≡ (ok already_processed, w')
check_and_insert_twice_example = check_and_insert_twice sample_db sample_job swap sample_world

other_id : codes "other" ≢ id_of sample_job swap
unfolding generate_instruction_id nat_to_text digits
other_id e = ground arith

swap-NoDash : NoDash (to_lower_case (name_text swap))
unfolding to_lower_case to_lower
swap-NoDash = ground arith

-- One id, written twice.
generate_instruction_id-injective_example :
    (sample_job.block_number ≡ sample_job.block_number)
    × (codes "T" ≡ codes "T")
    × (to_lower_case (name_text swap) ≡ to_lower_case (name_text swap))
    × (sample_job.instruction_index ≡ sample_job.instruction_index)
    × (sample_job.inner_instruction_index ≡ sample_job.inner_instruction_index)
generate_instruction_id-injective_example =
    generate_instruction_id-injective sample_job.block_number sample_job.block_number (codes "T")
      (codes "T") (name_text swap) (name_text swap) sample_job.instruction_index
      sample_job.instruction_index sample_job.inner_instruction_index
      sample_job.inner_instruction_index (ground arith) (ground arith) swap-NoDash swap-NoDash refl

at_most_one_inserts_example :
    let (a, b, w') =
      run {db = sample_db} sample_job swap
        (true ∷ false ∷ true ∷ false ∷ [])
        waiting
        waiting
        sample_world in
    ¬ (HasInserted a × HasInserted b)
at_most_one_inserts_example =
    at_most_one_inserts {db = sample_db} sample_job swap (true ∷ false ∷ true ∷ false ∷ [])
      sample_world
