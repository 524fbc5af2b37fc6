-- ===== src/Transactions/Router/Runs.antt =====
-- What a whole job of the transaction processor adds to the queues and marks.
use saros_dlmm_indexer.Base.{
  ℕ, ◌≡◌, ◌↔◌, inl, inr, Option, none, some, List, [], ◌∷◌, arith, Elem, Elem-append_left,
  Elem-append_right, Elem-append_cases, subst,
}
use saros_dlmm_indexer.Text.{Text}
use saros_dlmm_indexer.Schemas.{ParsedInstructionMessage}
use saros_dlmm_indexer.Transactions.Queues.{QueueName, JobType}
use saros_dlmm_indexer.Transactions.Parser.{ParsedTransaction, extract_liquidity_book_instructions}
use saros_dlmm_indexer.Transactions.Router.{
  add_job, mark_processed, route_of, process_instruction, process_all, fixed_signature,
  process_messages, process_fetched, process,
}
use saros_dlmm_indexer.Transactions.Router.Routes.{process_instruction_lem}

module _ (bs58_decode : Text → Option (List ℕ)) where
  one_job :
      (q : QueueName) (j : JobType) (m n : ParsedInstructionMessage)
      → Elem (add_job q j m) (process_instruction bs58_decode n)
      → (m ≡ n) × (route_of bs58_decode n ≡ some (some (q, j)))
  one_job q j m n h = elim (process_instruction_lem bs58_decode n) [
    | inl (_, e) ↦ elim (rw e at h) [ inl f ↦ cc | inr f ↦ absurd f ]
    | inr (inl (_, e)) ↦ absurd (rw e at h)
    | inr (inr (r, found, _, e)) ↦ elim (rw e at h) [
      | inl f ↦ (cc, rw found (cc))
      | inr f ↦ absurd f
    ]
  ]

  job_of :
      (q : QueueName) (j : JobType) (m : ParsedInstructionMessage)
      → route_of bs58_decode m ≡ some (some (q, j))
      → Elem (add_job q j m) (process_instruction bs58_decode m)
  job_of q j m h = elim (process_instruction_lem bs58_decode m) [
    | inl (e, _) ↦ cc
    | inr (inl (e, _)) ↦ cc
    | inr (inr (r, found, _, e)) ↦ rw e (inl (ground arith))
  ]

  process_all_sound :
      (q : QueueName) (j : JobType) (m : ParsedInstructionMessage)
      (ms : List ParsedInstructionMessage)
      → Elem (add_job q j m) (process_all bs58_decode ms)
      → Elem m ms × (route_of bs58_decode m ≡ some (some (q, j)))
  unfolding process_all
  process_all_sound q j m [] h = absurd h
  process_all_sound q j m (n ∷ ms) h =
      elim (Elem-append_cases _ (process_instruction bs58_decode n) (process_all bs58_decode ms)
        h) [
          | inl here ↦ let (same, found) = one_job q j m n here in (inl same, rw same found)
          | inr later ↦ let (m, found) = process_all_sound q j m ms later in (inr m, found)
        ]

  process_all_complete :
      (q : QueueName) (j : JobType) (m : ParsedInstructionMessage)
      (ms : List ParsedInstructionMessage)
      → Elem m ms
      → route_of bs58_decode m ≡ some (some (q, j))
      → Elem (add_job q j m) (process_all bs58_decode ms)
  unfolding process_all
  process_all_complete q j m [] h found = absurd h
  process_all_complete q j m (n ∷ ms) (inl same) found =
      Elem-append_left _ (process_instruction bs58_decode n) (process_all bs58_decode ms) (
        subst (λ n. Elem (add_job q j m) (process_instruction bs58_decode n)) same
          (job_of q j m found))
  process_all_complete q j m (n ∷ ms) (inr h) found =
      Elem-append_right _ (process_instruction bs58_decode n) (process_all bs58_decode ms)
        (process_all_complete q j m ms h found)

  one_mark :
      (s : Text) (n : ParsedInstructionMessage)
      → ¬ Elem (mark_processed s) (process_instruction bs58_decode n)
  one_mark s n h = elim (process_instruction_lem bs58_decode n) [
    | inl (_, e) ↦ elim (rw e at h) [ inl f ↦ cc | inr f ↦ f ]
    | inr (inl (_, e)) ↦ rw e at h
    | inr (inr (r, _, _, e)) ↦ elim (rw e at h) [ inl f ↦ cc | inr f ↦ f ]
  ]

  process_all_unmarked :
      (s : Text) (ms : List ParsedInstructionMessage)
      → ¬ Elem (mark_processed s) (process_all bs58_decode ms)
  unfolding process_all
  process_all_unmarked s [] h = h
  process_all_unmarked s (n ∷ ms) h =
      elim (Elem-append_cases _ (process_instruction bs58_decode n) (process_all bs58_decode ms)
        h) [ inl here ↦ one_mark s n here | inr later ↦ process_all_unmarked s ms later ]

  module _ (program_id : Text)
      (get_parsed_transaction : Text → Option (Option ParsedTransaction)) where
    messages_marks :
        (s : Text) (ms : List ParsedInstructionMessage)
        → Elem (mark_processed s) (process_messages bs58_decode program_id ms)
        → s ≡ fixed_signature
    unfolding process_messages
    messages_marks s [] h = absurd h
    messages_marks s (m ∷ ms) h =
        elim (Elem-append_cases _ (process_all bs58_decode (m ∷ ms))
          (mark_processed fixed_signature ∷ []) h) [
            | inl there ↦ absurd (process_all_unmarked s (m ∷ ms) there)
            | inr (inl e) ↦ cc
            | inr (inr f) ↦ absurd f
          ]

    -- A job marks no transaction as processed but the one with the fixed signature, whatever the
    -- job's own signature is and whatever the RPC answers.
    pub process_marks :
        (job_signature s : Text)
        → Elem
            (mark_processed s)
            (process bs58_decode program_id get_parsed_transaction job_signature).1
        → s ≡ fixed_signature
    unfolding process
    process_marks job_signature s h = marks (get_parsed_transaction fixed_signature) h
      where
        marks :
            (o : Option (Option ParsedTransaction))
            → Elem (mark_processed s) (process_fetched bs58_decode program_id o).1
            → s ≡ fixed_signature
        marks none h = absurd h
        marks (some none) h = absurd h
        marks (some (some t)) h =
            messages_marks s (extract_liquidity_book_instructions program_id t) h

    pub messages_jobs :
        (q : QueueName) (j : JobType) (m : ParsedInstructionMessage)
        (ms : List ParsedInstructionMessage)
        → Elem (add_job q j m) (process_messages bs58_decode program_id ms)
          ↔ (Elem m ms × (route_of bs58_decode m ≡ some (some (q, j))))
    unfolding process_messages
    messages_jobs q j m [] = (λ h. absurd h, λ h. absurd h.0)
    messages_jobs q j m (n ∷ ms) = (
      λ h.
          elim (Elem-append_cases _ (process_all bs58_decode (n ∷ ms))
            (mark_processed fixed_signature ∷ []) h) [
              | inl there ↦ process_all_sound q j m (n ∷ ms) there
              | inr (inl e) ↦ cc
              | inr (inr f) ↦ absurd f
            ],
      λ h.
          Elem-append_left _ (process_all bs58_decode (n ∷ ms))
            (mark_processed fixed_signature ∷ []) (process_all_complete q j m (n ∷ ms) h.0 h.1),
    )

    -- Where the RPC returns a transaction, the jobs added are exactly the extracted instructions
    -- that have a route, each on the queue and under the job type of its route.
    pub process_jobs :
        (job_signature : Text) (t : ParsedTransaction) (q : QueueName) (j : JobType)
        (m : ParsedInstructionMessage)
        → get_parsed_transaction fixed_signature ≡ some (some t)
        → Elem
            (add_job q j m)
            (process bs58_decode program_id get_parsed_transaction job_signature).1
          ↔ (Elem m (extract_liquidity_book_instructions program_id t)
              × (route_of bs58_decode m ≡ some (some (q, j))))
    unfolding process process_fetched
    process_jobs job_signature t q j m e =
        rw e (messages_jobs q j m (extract_liquidity_book_instructions program_id t))
