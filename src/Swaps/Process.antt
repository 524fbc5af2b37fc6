-- ===== src/Swaps/Process.antt =====
-- `process` of swap.processor.ts: the first bytes of the data tell an instruction from an event.
use saros_dlmm_indexer.Base.{⊤, ℕ, Option, none, some, List, [], ◌∷◌, if◌then◌else◌}
use saros_dlmm_indexer.Text.{Text, eq_text}
use saros_dlmm_indexer.Schemas.{ParsedInstructionMessage}
use saros_dlmm_indexer.Store.World.{Db, Action, pure, throw, range_error, decode_failed}
use saros_dlmm_indexer.Library.{event_identifier, split_at}
use saros_dlmm_indexer.Prices.Floats.{Numbers}
use saros_dlmm_indexer.Swaps.{SwapArgs, BinSwapEventDecoded}
use saros_dlmm_indexer.Swaps.Instruction.{process_swap_instruction}
use saros_dlmm_indexer.Swaps.BinEvent.{process_bin_swap_event}

abbrev pub instruction_identifier : List ℕ
instruction_identifier = 248 ∷ 198 ∷ 158 ∷ 145 ∷ 225 ∷ 117 ∷ 135 ∷ 200 ∷ []

abbrev pub bin_swap_event_discriminator : List ℕ
bin_swap_event_discriminator = 55 ∷ 42 ∷ 192 ∷ 194 ∷ 230 ∷ 243 ∷ 9 ∷ 72 ∷ []

module _ (n : Numbers) (bs58_decode : Text → Option (List ℕ))
    (instruction_coder : Text → Option (Option SwapArgs))
    (event_coder : List ℕ → Option BinSwapEventDecoded) {db : Db} (m : ParsedInstructionMessage)
    (now : ℕ) where
  unfoldable pub on_event : Option (List ℕ × List ℕ) → Action db ⊤
  on_event none = throw range_error
  on_event (some (discriminator, event_data)) =
      if eq_text discriminator bin_swap_event_discriminator
      then process_bin_swap_event n m now event_coder event_data
      else pure tt

  unfoldable pub by_identifier : Option (List ℕ × List ℕ) → Action db ⊤
  unfolding on_event
  by_identifier none = throw range_error
  by_identifier (some (identifier, rest)) =
      if eq_text identifier instruction_identifier
      then process_swap_instruction bs58_decode instruction_coder m
      else if eq_text identifier event_identifier
      then on_event (split_at rest 8)
      else pure tt

  unfoldable pub process : Action db ⊤
  unfolding by_identifier
  process w = elim (bs58_decode m.instruction.data_base58) [
    | none ↦ throw decode_failed w
    | some bytes ↦ by_identifier (split_at bytes 8) w
  ]
