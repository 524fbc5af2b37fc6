-- ===== src/Swaps/Instruction/Idle.antt =====
-- What a swap instruction does to the events of bins.
use saros_dlmm_indexer.Base.{◌≡◌, refl, ap, ℕ, false, Option, none, some, List, arith, inl, inr}
use saros_dlmm_indexer.Text.{Text}
use saros_dlmm_indexer.Schemas.{BinSwapEvent, ParsedInstructionMessage, SwapEvent}
use saros_dlmm_indexer.Store.World.{Db, World, ok}
use saros_dlmm_indexer.Store.Keeps.{Keeps, Keeps-bind}
use saros_dlmm_indexer.Instruction.{
  swap, Check, already_processed, inserted, is_instruction_processed, insert_unless_processed,
  insert_instruction, store_instruction, check_and_insert_instruction,
}
use saros_dlmm_indexer.Swaps.{SwapArgs, SwapDecoded}
use saros_dlmm_indexer.Swaps.Instruction.{
  instruction_index_of, is_event_of, set_vaults, vaults_of_decoded, decode_swap_instruction,
  new_swap_event, store_swap_event, create_swap_event, update_bin_swap_event, record_swap,
  after_check, process_swap_instruction,
}

abbrev pub bin_events : (db : Db) → World db → db.bin_swap_events.State
bin_events db w = w.bin_swap_events

is_event_of_none :
    (m : ParsedInstructionMessage) (d : SwapDecoded) (e : BinSwapEvent) → is_event_of m d e ≡ false
unfolding is_event_of instruction_index_of
is_event_of_none m d e = ground arith

module _ {db : Db} where
  check_and_insert-Keeps :
      (m : ParsedInstructionMessage) → Keeps (bin_events db) (check_and_insert_instruction m swap)
  unfolding check_and_insert_instruction is_instruction_processed insert_unless_processed
      insert_instruction store_instruction
  check_and_insert-Keeps m w = ground arith

  create_swap_event-Keeps : (e : SwapEvent) → Keeps (bin_events db) (create_swap_event {db = db} e)
  unfolding create_swap_event store_swap_event
  create_swap_event-Keeps e w = ground arith

  pub update_bin_swap_event_idle :
      (m : ParsedInstructionMessage) (d : SwapDecoded) (w : World db)
      → update_bin_swap_event m d w ≡ (ok tt, w)
  unfolding update_bin_swap_event
  update_bin_swap_event_idle m d w =
      elim (db.bin_swap_events.update_where_lem (is_event_of m d) (set_vaults (vaults_of_decoded d))
        w.bin_swap_events) [
          | inl (missing, same) ↦ ap (λ s. (ok tt, record w { bin_swap_events = s })) same
          | inr (k, e, found, matches, updated) ↦ cc (is_event_of_none m d e)
        ]

  update_bin_swap_event-Keeps :
      (m : ParsedInstructionMessage) (d : SwapDecoded)
      → Keeps (bin_events db) (update_bin_swap_event {db = db} m d)
  update_bin_swap_event-Keeps m d w =
      ap (λ r. r.1.bin_swap_events) (update_bin_swap_event_idle m d w)

  record_swap-Keeps :
      (m : ParsedInstructionMessage) (o : Option SwapDecoded)
      → Keeps (bin_events db) (record_swap {db = db} m o)
  unfolding record_swap
  record_swap-Keeps m none w = refl
  record_swap-Keeps m (some d) w =
      Keeps-bind (bin_events db) (create_swap_event (new_swap_event m d))
        (λ _. update_bin_swap_event m d) (create_swap_event-Keeps (new_swap_event m d))
        (λ _. update_bin_swap_event-Keeps m d) w

  after_check-Keeps :
      (m : ParsedInstructionMessage) (o : Option SwapDecoded) (c : Check)
      → Keeps (bin_events db) (after_check {db = db} m o c)
  unfolding after_check
  after_check-Keeps m o already_processed w = refl
  after_check-Keeps m o (inserted i) w = record_swap-Keeps m o w

  -- A swap instruction changes no event of a bin, whatever is stored and however it ends: the update of
  -- the vaults filters by a field that no event has.
  pub process_swap_instruction_idle :
      (bs58_decode : Text → Option (List ℕ)) (coder : Text → Option (Option SwapArgs))
      (m : ParsedInstructionMessage) (w : World db)
      → (process_swap_instruction bs58_decode coder m w).1.bin_swap_events ≡ w.bin_swap_events
  unfolding process_swap_instruction
  process_swap_instruction_idle bs58_decode coder m =
      Keeps-bind (bin_events db) (check_and_insert_instruction m swap)
        (after_check m (decode_swap_instruction bs58_decode coder m.instruction))
        (check_and_insert-Keeps m)
        (after_check-Keeps m (decode_swap_instruction bs58_decode coder m.instruction))
