-- ===== src/DeadLetters/Refused.antt =====
-- No dead letter is ever stored.
use saros_dlmm_indexer.Base.{
  ℕ, ◌≡◌, ◌∙◌, refl, ap, arith, Bool, true, false, ◌||◌, Option, none, some, List, [], ◌∷◌,
}
use saros_dlmm_indexer.Text.{Text}
use saros_dlmm_indexer.Schemas.{ParsedInstructionMessage}
use saros_dlmm_indexer.Store.World.{Result, err, validation_failed}
use saros_dlmm_indexer.Transactions.Router.{add_dead_letter, finish, process_instruction}
use saros_dlmm_indexer.Transactions.Router.Routes.{route_of-eq-none}
use saros_dlmm_indexer.DeadLetters.{
  DlqJob, DlqEvent, new_dlq_event, dead_letter_of, DlqModel, process,
}

abbrev is_none {ℓ} : {A : Type ℓ} → Option A → Bool
is_none none = true
is_none (some a) = false

-- A path that the schema requires is missing.
unfoldable pub misses_required : DlqEvent → Bool
misses_required d =
    is_none d.block_number
    || is_none d.signature
    || is_none d.instruction_index
    || is_none d.instruction_name

-- mongoose's validation: nothing is written where a required path is missing.
abbrev pub Validates : DlqModel → Type 0
Validates model =
    (d : DlqEvent) (s : model.State)
    → misses_required d ≡ true
    → model.save d s ≡ (err validation_failed, s)

module _ (model : DlqModel) where
  -- The jobs of the queue in their order, with every retry of one that threw.
  unfoldable pub run_jobs : List DlqJob → model.State → model.State
  unfolding process
  run_jobs [] s = s
  run_jobs (j ∷ js) s = run_jobs js (process model j s).1

module _ (model : DlqModel) (validates : Validates model) where
  misses : (j : DlqJob) → misses_required (new_dlq_event j) ≡ true
  unfolding misses_required new_dlq_event
  misses j = ground arith

  process_throws_always :
      (j : DlqJob) (s : model.State) → process model j s ≡ (err validation_failed, s)
  unfolding process
  process_throws_always j s = validates (new_dlq_event j) s (misses j)

  run_jobs_idle : (js : List DlqJob) (s : model.State) → run_jobs model js s ≡ s
  unfolding run_jobs
  run_jobs_idle [] s = refl
  run_jobs_idle (j ∷ js) s =
      ap (λ (r : Result Unit × model.State). run_jobs model js r.1) (process_throws_always j s)
      ∙ run_jobs_idle js s

  -- Where mongoose validates what the schema requires, an instruction whose base58 data cannot be read
  -- becomes a dead letter, and nothing else; the job that stores it throws, whatever the error was;
  -- and no list of jobs of this queue, retries included, ever stores anything.
  pub dead_letter_is_lost :
      (bs58_decode : Text → Option (List ℕ)) (m : ParsedInstructionMessage) (message : Text)
      (js : List DlqJob) (s : model.State)
      → bs58_decode m.instruction.data_base58 ≡ none
      → (process_instruction bs58_decode m ≡ add_dead_letter m ∷ [])
        × (process model (dead_letter_of m message) s ≡ (err validation_failed, s))
        × (run_jobs model (dead_letter_of m message ∷ js) s ≡ s)
  unfolding process_instruction finish
  dead_letter_is_lost bs58_decode m message js s unread =
      let thrown = (route_of-eq-none bs58_decode m).1 unread in
      (
        ap (finish bs58_decode m) thrown,
        process_throws_always (dead_letter_of m message) s,
        run_jobs_idle (dead_letter_of m message ∷ js) s,
      )
