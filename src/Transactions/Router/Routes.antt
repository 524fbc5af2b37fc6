-- ===== src/Transactions/Router/Routes.antt =====
-- Where data goes, by what its bytes say.
use saros_dlmm_indexer.Base.{
  ℕ, ◌≡◌, refl, ◌⊎◌, inl, inr, Bool, true, false, not, Option, none, some, List, [], ◌∷◌, arith,
  subst, ◌↔◌, take, Bool-cases, Option-cases,
}
use saros_dlmm_indexer.Text.{Text, eq_text}
use saros_dlmm_indexer.Idl.{IdlInstruction, idl_instructions}
use saros_dlmm_indexer.Schemas.{ParsedInstructionMessage}
use saros_dlmm_indexer.Library.{
  event_identifier, get_event_name, get_instruction_name, find_instruction,
}
use saros_dlmm_indexer.Library.Lookup.{find_instruction_lem, all_instructions}
use saros_dlmm_indexer.Transactions.Queues.{
  increase_position_processor, decrease_position_processor, composition_fees_processor,
}
use saros_dlmm_indexer.Transactions.Router.{
  Route, event_route, instruction_route, has_queue, add_job, add_dead_letter, event_named,
  event_of_bytes, try_handle_event, instruction_named, handle_instruction, route_to_queue, finish,
  choose_route, route_of, process_instruction,
}
use mathlib.Core.Option

-- Every route of the two switches leads to a queue that `routeToQueue` knows.
abbrev IsOpen : Option Route → Type 0
IsOpen none = Unit
IsOpen (some r) = has_queue r.0 ≡ true

event_route-IsOpen : (name : Text) → IsOpen (event_route name)
unfolding event_route has_queue
event_route-IsOpen name = ground arith

instruction_route-IsOpen : (name : Text) → IsOpen (instruction_route name)
unfolding instruction_route has_queue
instruction_route-IsOpen name = ground arith

-- The kinds of queue that instructions, as against events, never go to.
abbrev pub only_for_events : Option Route → Bool
only_for_events none = false
only_for_events (some (increase_position_processor, _)) = true
only_for_events (some (decrease_position_processor, _)) = true
only_for_events (some (composition_fees_processor, _)) = true
only_for_events (some (_, _)) = false

no_instruction_for_events :
    all_instructions (λ ix. not (only_for_events (instruction_route ix.name))) idl_instructions
    ≡ true
unfolding instruction_route eq_text
no_instruction_for_events = refl

false_of_not : (b : Bool) → not b ≡ true → b ≡ false
false_of_not true h = cc
false_of_not false h = refl

module _ (bs58_decode : Text → Option (List ℕ)) where
  route_of_bytes :
      (found : Option IdlInstruction) (bytes : List ℕ) (r : Route)
      → find_instruction (take 8 bytes) idl_instructions ≡ found
      → instruction_named bs58_decode (some (Option.map (λ ix. ix.name) found)) ≡ some (some r)
      → only_for_events (some r) ≡ false
  unfolding instruction_named
  route_of_bytes none bytes r e h = cc
  route_of_bytes (some ix) bytes r e h =
      let (_, never) =
        find_instruction_lem (take 8 bytes)
          (λ ix. not (only_for_events (instruction_route ix.name))) idl_instructions
          no_instruction_for_events e in
      let same : instruction_route ix.name ≡ some r = cc in
      false_of_not (only_for_events (some r)) (rw same at never)

  thrown : {r : Option Route} → instruction_named bs58_decode none ≡ some r → ⊥
  unfolding instruction_named
  thrown h = cc

  -- The queues of position changes and of composition fees get events alone: whatever its data, no
  -- instruction is routed to them by `handleInstruction`, whose case `composition_fees` names an
  -- instruction that the interface does not have.
  pub handle_instruction-only_for_events :
      (data_base58 : Text) (r : Route)
      → handle_instruction bs58_decode data_base58 ≡ some (some r)
      → only_for_events (some r) ≡ false
  unfolding handle_instruction get_instruction_name
  handle_instruction-only_for_events data_base58 r h =
      elim (Option-cases (bs58_decode data_base58)) [
        | inl bad ↦ absurd (thrown (rw bad at h))
        | inr (bytes, e) ↦ route_of_bytes _ bytes r refl (rw e at h)
      ]

  choose_route-IsOpen :
      (o : Option Route) (r : Option (Option Route)) (route : Route)
      → IsOpen o
      → ((route : Route) → r ≡ some (some route) → has_queue route.0 ≡ true)
      → choose_route bs58_decode o r ≡ some (some route)
      → has_queue route.0 ≡ true
  unfolding choose_route
  choose_route-IsOpen none r route h k e = k route e
  choose_route-IsOpen (some o) r route h k e = ground arith

  event_named-IsOpen : (n : Option (Option Text)) → IsOpen (event_named bs58_decode n)
  unfolding event_named
  event_named-IsOpen none = tt
  event_named-IsOpen (some none) = tt
  event_named-IsOpen (some (some name)) = event_route-IsOpen name

  event_of_bytes-IsOpen :
      (data_base58 : Text) (bytes : Option (List ℕ))
      → IsOpen (event_of_bytes bs58_decode data_base58 bytes)
  unfolding event_of_bytes
  event_of_bytes-IsOpen data_base58 none = tt
  event_of_bytes-IsOpen data_base58 (some bytes) =
      elim (Bool-cases (eq_text (take 8 bytes) event_identifier)) [
        | inl event ↦ rw event (event_named-IsOpen (get_event_name bs58_decode data_base58))
        | inr other ↦ rw other tt
      ]

  try_handle_event-IsOpen : (data_base58 : Text) → IsOpen (try_handle_event bs58_decode data_base58)
  unfolding try_handle_event
  try_handle_event-IsOpen data_base58 = event_of_bytes-IsOpen data_base58 (bs58_decode data_base58)

  handle_instruction-IsOpen :
      (data_base58 : Text) (r : Route)
      → handle_instruction bs58_decode data_base58 ≡ some (some r)
      → has_queue r.0 ≡ true
  unfolding handle_instruction instruction_named
  handle_instruction-IsOpen data_base58 r h = named (get_instruction_name bs58_decode data_base58) h
    where
      named :
          (n : Option (Option Text))
          → instruction_named bs58_decode n ≡ some (some r)
          → has_queue r.0 ≡ true
      named none e = absurd (thrown e)
      named (some none) e = cc
      named (some (some name)) e =
          let same : instruction_route name ≡ some r = cc in
          subst IsOpen same (instruction_route-IsOpen name)

  route_of-IsOpen :
      (m : ParsedInstructionMessage) (r : Route)
      → route_of bs58_decode m ≡ some (some r)
      → has_queue r.0 ≡ true
  unfolding route_of
  route_of-IsOpen m r h = elim (Bool-cases m.is_inner) [
    | inl inner ↦
        choose_route-IsOpen (try_handle_event bs58_decode data_base58)
          (handle_instruction bs58_decode data_base58) r (try_handle_event-IsOpen data_base58)
          (handle_instruction-IsOpen data_base58) (rw inner at h)
    | inr outer ↦ handle_instruction-IsOpen data_base58 r (rw outer at h)
  ]
    where
      open m.instruction use {data_base58}

  -- What `processInstruction` does with an instruction: it becomes one dead letter where its
  -- handling throws, nothing where it has no route, and else one job on the queue of its route,
  -- which is always a queue that `routeToQueue` knows.
  pub process_instruction_lem :
      (m : ParsedInstructionMessage)
      → ((route_of bs58_decode m ≡ none)
          × (process_instruction bs58_decode m ≡ add_dead_letter m ∷ []))
        ⊎ ((route_of bs58_decode m ≡ some none) × (process_instruction bs58_decode m ≡ []))
        ⊎ ((r : Route) × (route_of bs58_decode m ≡ some (some r))
            × (has_queue r.0 ≡ true)
            × (process_instruction bs58_decode m ≡ add_job r.0 r.1 m ∷ []))
  unfolding process_instruction
  process_instruction_lem m = cases (route_of bs58_decode m) refl
    where
      cases :
          (o : Option (Option Route))
          → route_of bs58_decode m ≡ o
          → ((o ≡ none) × (finish bs58_decode m o ≡ add_dead_letter m ∷ []))
            ⊎ ((o ≡ some none) × (finish bs58_decode m o ≡ []))
            ⊎ ((r : Route) × (o ≡ some (some r))
                × (has_queue r.0 ≡ true)
                × (finish bs58_decode m o ≡ add_job r.0 r.1 m ∷ []))
      cases none e = inl (refl, refl)
      cases (some none) e = inr (inl (refl, refl))
      cases (some (some r)) e =
          let known = route_of-IsOpen m r e in
          inr (inr (r, refl, known, rw (known, route_to_queue)))

  -- An instruction is a dead letter exactly where its base58 data cannot be read.
  pub route_of-eq-none :
      (m : ParsedInstructionMessage)
      → (route_of bs58_decode m ≡ none) ↔ (bs58_decode m.instruction.data_base58 ≡ none)
  unfolding route_of try_handle_event handle_instruction get_instruction_name event_of_bytes
      choose_route instruction_named
  route_of-eq-none m = (λ h. ground arith, λ h. ground arith)
