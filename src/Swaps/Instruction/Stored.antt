-- ===== src/Swaps/Instruction/Stored.antt =====
-- What a swap instruction leaves, and what the event of a bin then finds.
use saros_dlmm_indexer.Base.{
  ◌≡◌, ◌∙◌, refl, ap, sym, ℕ, Option, none, some, List, if◌then◌else◌, Bool-cases, inl, inr,
}
use saros_dlmm_indexer.Text.{Text, eq_text, eq_text_refl}
use saros_dlmm_indexer.Schemas.{ParsedInstructionMessage}
use saros_dlmm_indexer.Store.World.{Db, World, ok, >>=-of-ok}
use saros_dlmm_indexer.Instruction.{swap, id_of, record_of, inserted, check_and_insert_instruction}
use saros_dlmm_indexer.Instruction.Dedup.{recorded, Recorded, check_and_insert_fresh}
use saros_dlmm_indexer.Swaps.{SwapArgs, SwapDecoded, get_swap_event_id}
use saros_dlmm_indexer.Swaps.Instruction.{
  vaults_of_decoded, decode_swap_instruction, new_swap_event, store_swap_event, create_swap_event,
  update_bin_swap_event, record_swap, after_check, process_swap_instruction,
}
use saros_dlmm_indexer.Swaps.Instruction.Idle.{update_bin_swap_event_idle}
use saros_dlmm_indexer.Swaps.BinEvent.{vaults_of_event}

vaults_of_event-new_swap_event :
    (m : ParsedInstructionMessage) (d : SwapDecoded)
    → vaults_of_event d.swap_for_y (some (new_swap_event m d)) ≡ vaults_of_decoded d
unfolding vaults_of_event new_swap_event vaults_of_decoded
vaults_of_event-new_swap_event m d = elim (Bool-cases d.swap_for_y) [
  | inl forth ↦ rw forth refl
  | inr back ↦ rw back refl
]

module _ {db : Db} (m : ParsedInstructionMessage) where
  record_swap_lem :
      (d : SwapDecoded) (w : World db)
      → db.swap_events.find_one (new_swap_event m d).id w.swap_events ≡ none
      → (t : db.swap_events.State) × (record_swap m (some d) w
          ≡ (ok tt, record w { swap_events = t }))
        × ((j : Text)
            → db.swap_events.find_one j t ≡ (
                if eq_text (new_swap_event m d).id j
                then some (new_swap_event m d)
                else db.swap_events.find_one j w.swap_events))
  unfolding record_swap create_swap_event store_swap_event
  record_swap_lem d w fresh =
      let e = new_swap_event m d in
      let (t, made, looks) = db.swap_events.create_fresh e w.swap_events fresh in
      (
        t,
        >>=-of-ok (create_swap_event e) (λ _. update_bin_swap_event m d) w
              (ap (store_swap_event w) made)
            ∙ update_bin_swap_event_idle m d (record w { swap_events = t }),
        looks,
      )

  -- A swap instruction that is new and decodes returns. Then its record and its swap event are
  -- stored, every other record and swap event is as before, and nothing else is written. Where it is no inner instruction,
  -- an event of a bin that is processed later under the same block, signature and index finds its
  -- vaults, each on its side.
  pub process_swap_instruction_stores :
      (bs58_decode : Text → Option (List ℕ)) (coder : Text → Option (Option SwapArgs))
      (d : SwapDecoded) (w : World db)
      → recorded db (id_of m swap) w ≡ none
      → decode_swap_instruction bs58_decode coder m.instruction ≡ some d
      → db.swap_events.find_one (new_swap_event m d).id w.swap_events ≡ none
      → (s : db.instructions.State) × (t : db.swap_events.State) × (process_swap_instruction
            bs58_decode coder m w
          ≡ (ok tt, record w { instructions = s; swap_events = t }))
        × Recorded db m swap w s
        × ((j : Text)
            → db.swap_events.find_one j t ≡ (
                if eq_text (new_swap_event m d).id j
                then some (new_swap_event m d)
                else db.swap_events.find_one j w.swap_events))
        × (m.inner_instruction_index ≡ none
            → vaults_of_event d.swap_for_y (
                db.swap_events.find_one
                  (get_swap_event_id m.block_number m.signature m.instruction_index none)
                  t)
              ≡ vaults_of_decoded d)
  unfolding process_swap_instruction after_check new_swap_event
  process_swap_instruction_stores bs58_decode coder d w new decodes fresh =
      let (s, made, looks) = check_and_insert_fresh db m swap w new in
      let v : World db = record w { instructions = s } in
      let (t, stored, finds) = record_swap_lem d v fresh in
      let decoded = decode_swap_instruction bs58_decode coder m.instruction in
      let id = get_swap_event_id m.block_number m.signature m.instruction_index in
      (
        s,
        t,
        >>=-of-ok (check_and_insert_instruction m swap) (after_check m decoded) w made
            ∙ ap (λ o. after_check m o (inserted (record_of m swap)) v) decodes
            ∙ stored,
        looks,
        finds,
        λ top.
            ap (λ i. vaults_of_event d.swap_for_y (db.swap_events.find_one (id i) t)) (sym top)
            ∙ ap (vaults_of_event d.swap_for_y) (
                finds (id m.inner_instruction_index)
                ∙ ap
                    (λ b.
                      if b
                      then some (new_swap_event m d)
                      else db.swap_events.find_one (id m.inner_instruction_index) w.swap_events)
                    (eq_text_refl (id m.inner_instruction_index)))
            ∙ vaults_of_event-new_swap_event m d,
      )
