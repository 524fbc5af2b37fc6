-- ===== src/Swaps/Instruction.antt =====
-- `processSwapInstruction` and `decodeSwapInstruction` of swap.processor.ts: a swap event is stored, and
-- the event of a bin that the swap went through is to get its vaults.
pub mod Idle
pub mod Stored
use saros_dlmm_indexer.Base.{
  ⊤, ℕ, Bool, true, false, Option, none, some, List, [], ◌∷◌, ◌==◌, ◌&&◌, if◌then◌else◌,
}
use saros_dlmm_indexer.Text.{Text, codes, eq_text}
use saros_dlmm_indexer.Schemas.{
  SwapType, exact_input, exact_output, SwapEvent, BinSwapEvent, PartiallyDecodedInstruction,
  ParsedInstructionMessage,
}
use saros_dlmm_indexer.Store.World.{
  Db, World, Action, Result, ok, err, ◌>>=◌, ◌>>◌, pure, modify, duplicate_key,
}
use saros_dlmm_indexer.Idl.{IdlInstruction}
use saros_dlmm_indexer.Library.{decode_instruction, get_account}
use saros_dlmm_indexer.Instruction.{
  swap, block_date, Check, already_processed, inserted, check_and_insert_instruction,
}
use saros_dlmm_indexer.Swaps.{SwapArgs, SwapDecoded, Vaults, get_swap_event_id}

-- `swap_type.ExactInput ? … : …`: the value of the variant is an object.
unfoldable pub swap_type_of : Text → SwapType
swap_type_of key = if eq_text key (codes "ExactInput") then exact_input else exact_output

-- The accounts by name, in the order of the call; `none` where one is missing.
unfoldable pub accounts_named : IdlInstruction → List Text → List Text → Option (List Text)
accounts_named ix accounts [] = some []
accounts_named ix accounts (name ∷ names) = elim (get_account ix accounts name) [
  | none ↦ none
  | some a ↦ elim (accounts_named ix accounts names) [ none ↦ none | some rest ↦ some (a ∷ rest) ]
]

unfoldable pub decoded_of : SwapArgs → Option (List Text) → Option SwapDecoded
unfolding swap_type_of
decoded_of args
      (some (pair ∷ mint_x ∷ mint_y ∷ lower ∷ upper ∷ vault_x ∷ vault_y ∷ user_x ∷ user_y ∷ [])) =
    some (record {
      amount = args.amount;
      other_amount_threshold = args.other_amount_threshold;
      swap_for_y = args.swap_for_y;
      swap_type = swap_type_of args.swap_type;
      pair = pair;
      token_mint_x = mint_x;
      token_mint_y = mint_y;
      bin_array_lower = lower;
      bin_array_upper = upper;
      token_vault_x = vault_x;
      token_vault_y = vault_y;
      user_vault_x = user_x;
      user_vault_y = user_y;
    })
decoded_of args _ = none

abbrev pub account_names : List Text
account_names =
    codes "pair"
    ∷ codes "token_mint_x"
    ∷ codes "token_mint_y"
    ∷ codes "bin_array_lower"
    ∷ codes "bin_array_upper"
    ∷ codes "token_vault_x"
    ∷ codes "token_vault_y"
    ∷ codes "user_vault_x"
    ∷ codes "user_vault_y"
    ∷ []

unfoldable pub accounts_of :
    Option (Option (IdlInstruction × Option SwapArgs)) → List Text → Option SwapDecoded
unfolding decoded_of accounts_named
accounts_of (some (some (ix, some args))) accounts =
    decoded_of args (accounts_named ix accounts account_names)
accounts_of _ accounts = none

-- `decodeSwapInstruction`: null where anything throws.
unfoldable pub decode_swap_instruction :
    (Text → Option (List ℕ))
    → (Text → Option (Option SwapArgs))
    → PartiallyDecodedInstruction
    → Option SwapDecoded
unfolding accounts_of
decode_swap_instruction bs58_decode coder ix =
    accounts_of (decode_instruction bs58_decode coder ix.data_base58) ix.accounts

-- `swapEventData`
unfoldable pub new_swap_event : ParsedInstructionMessage → SwapDecoded → SwapEvent
new_swap_event m d = record {
  id = get_swap_event_id m.block_number m.signature m.instruction_index m.inner_instruction_index;
  pair_id = d.pair;
  swap_type = d.swap_type;
  token_mint_x_id = d.token_mint_x;
  token_mint_y_id = d.token_mint_y;
  bin_array_lower = d.bin_array_lower;
  bin_array_upper = d.bin_array_upper;
  token_vault_x = d.token_vault_x;
  token_vault_y = d.token_vault_y;
  user_vault_x = d.user_vault_x;
  user_vault_y = d.user_vault_y;
  block_number = m.block_number;
  signature = m.signature;
  index = m.instruction_index;
  is_inner = m.is_inner;
  inner_index = m.inner_instruction_index;
  block_time = block_date m.block_time;
}

unfoldable pub vaults_of_decoded : SwapDecoded → Vaults
vaults_of_decoded d =
    if d.swap_for_y
    then record {
      user_in = d.user_vault_x;
      user_out = d.user_vault_y;
      pair_in = d.token_vault_x;
      pair_out = d.token_vault_y;
    }
    else record {
      user_in = d.user_vault_y;
      user_out = d.user_vault_x;
      pair_in = d.token_vault_y;
      pair_out = d.token_vault_x;
    }

-- The value of the field `instructionIndex` by which the update filters. The schema
-- (bin-swap-event.schema.ts) calls it `index`, so no document has it.
unfoldable pub instruction_index_of : BinSwapEvent → Option ℕ
instruction_index_of e = none

abbrev has_value : ℕ → Option ℕ → Bool
has_value n none = false
has_value n (some v) = v == n

unfoldable pub is_event_of : ParsedInstructionMessage → SwapDecoded → BinSwapEvent → Bool
unfolding instruction_index_of
is_event_of m d e =
    eq_text e.pair_id d.pair
    && e.block_number == m.block_number
    && eq_text e.signature m.signature
    && has_value m.instruction_index (instruction_index_of e)

unfoldable pub set_vaults : Vaults → BinSwapEvent → BinSwapEvent
set_vaults v e = record e {
  pair_vault_in = v.pair_in;
  pair_vault_out = v.pair_out;
  user_vault_in = v.user_in;
  user_vault_out = v.user_out;
}

module _ {db : Db} where
  unfoldable pub store_swap_event : World db → Option (db.swap_events.State) → Result ⊤ × World db
  store_swap_event w none = (err duplicate_key, w)
  store_swap_event w (some s) = (ok tt, record w { swap_events = s })

  unfoldable pub create_swap_event : SwapEvent → Action db ⊤
  unfolding store_swap_event
  create_swap_event e w = store_swap_event w (db.swap_events.create e w.swap_events)

  unfoldable pub update_bin_swap_event : ParsedInstructionMessage → SwapDecoded → Action db ⊤
  unfolding is_event_of set_vaults vaults_of_decoded
  update_bin_swap_event m d = modify (λ w. record w {
    bin_swap_events =
        db.bin_swap_events.update_where (is_event_of m d) (set_vaults (vaults_of_decoded d))
          w.bin_swap_events;
  })

  unfoldable pub record_swap : ParsedInstructionMessage → Option SwapDecoded → Action db ⊤
  unfolding create_swap_event update_bin_swap_event
  record_swap m none = pure tt
  record_swap m (some d) = do create_swap_event (new_swap_event m d); update_bin_swap_event m d

  unfoldable pub after_check : ParsedInstructionMessage → Option SwapDecoded → Check → Action db ⊤
  unfolding record_swap
  after_check m decoded already_processed = pure tt
  after_check m decoded (inserted i) = record_swap m decoded

  -- The data is decoded behind the check, which the decoded value does not depend on.
  unfoldable pub process_swap_instruction :
      (Text → Option (List ℕ))
      → (Text → Option (Option SwapArgs))
      → ParsedInstructionMessage
      → Action db ⊤
  unfolding after_check
  process_swap_instruction bs58_decode coder m = do
    check ← check_and_insert_instruction m swap
    after_check m (decode_swap_instruction bs58_decode coder m.instruction) check
