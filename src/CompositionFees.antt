-- ===== src/CompositionFees.antt =====
-- modules/indexer/processors/composition-fees.processor.ts: an event of composition fees is stored, and its
-- pair gets the active bin and the protocol fees.
pub mod Stored
use saros_dlmm_indexer.Base.{
  ⊤, ℕ, zero, suc, Bool, true, false, Option, none, some, List, [], ◌∷◌, ◌++◌, if◌then◌else◌,
}
use saros_dlmm_indexer.Text.{Text, codes, eq_text}
use saros_dlmm_indexer.Text.Decimal.{nat_to_text}
use saros_dlmm_indexer.Text.Join.{join}
use saros_dlmm_indexer.Schemas.{Pair, TokenMint, CompositionFeesEvent, ParsedInstructionMessage}
use saros_dlmm_indexer.Store.World.{
  Db, World, Action, Result, ok, err, ◌>>=◌, ◌>>◌, pure, throw, or_throw, gets, modify,
  duplicate_key, no_pair, no_token_mint, range_error, decode_failed,
}
use saros_dlmm_indexer.Library.{event_identifier, split_at, decode_type}
use saros_dlmm_indexer.Instruction.{
  composition_fees, block_date, inner_index_text, Check, already_processed, inserted,
  check_and_insert_instruction,
}
use saros_dlmm_indexer.Positions.Update.{bin_id}
use saros_dlmm_indexer.Prices.{get_price_from_id}
use saros_dlmm_indexer.Prices.Decimals.{normalize_amount}
use saros_dlmm_indexer.Prices.Floats.{Numbers}
use saros_dlmm_indexer.Swaps.Amounts.{Valued, valued}
use saros_dlmm_indexer.Swaps.BinEvent.{unit_price, checked_price}

abbrev pub composition_fees_event_discriminator : List ℕ
composition_fees_event_discriminator = 83 ∷ 234 ∷ 249 ∷ 47 ∷ 88 ∷ 125 ∷ 2 ∷ 86 ∷ []

-- The fees are `BN`s as the coder gives them, though the type of the source says `number`.
pub record CompositionFeesEventDecoded : Type 0 where
  pub pair : Text
  pub active_id : ℕ
  pub composition_fees_x : ℕ
  pub composition_fees_y : ℕ
  pub protocol_fees_x : ℕ
  pub protocol_fees_y : ℕ

-- `inner_instruction_index || null` and `Boolean(inner_instruction_index)`: the index 0 counts as none.
unfoldable pub checked_index : Option ℕ → Option ℕ
checked_index none = none
checked_index (some zero) = none
checked_index (some (suc i)) = some (suc i)

abbrev is_given : Option ℕ → Bool
is_given none = false
is_given (some i) = true

-- What `checkAndInsertInstruction` is asked about.
unfoldable pub checked_message : ParsedInstructionMessage → ParsedInstructionMessage
unfolding checked_index
checked_message m = record m {
  inner_instruction_index = checked_index m.inner_instruction_index;
  is_inner = is_given (checked_index m.inner_instruction_index);
}

unfoldable pub get_composition_fees_event_id : ℕ → Text → ℕ → Option ℕ → Text → Text
get_composition_fees_event_id block_number signature index inner_index bin_id =
    join (nat_to_text block_number)
      (join signature (join (nat_to_text index) (join (inner_index_text inner_index) bin_id)))

-- The fees in whole tokens at a price of 1.
pub record ValuedFees : Type 0 where
  pub composition_x : Valued
  pub composition_y : Valued
  pub protocol_x : Valued
  pub protocol_y : Valued

infixl 5 ◌>>=?◌
abbrev ◌>>=?◌ : {A B : Type 0} → Option A → (A → Option B) → Option B
none >>=? f = none
some a >>=? f = f a

-- `eventData`
unfoldable pub new_composition_fees_event :
    ParsedInstructionMessage
    → CompositionFeesEventDecoded
    → Pair
    → ValuedFees
    → CompositionFeesEvent
new_composition_fees_event m e pair v = record {
  id =
      get_composition_fees_event_id m.block_number m.signature m.instruction_index
        m.inner_instruction_index (bin_id e.pair e.active_id);
  pair_id = pair.id;
  bin_id = bin_id e.pair e.active_id;
  lb_bin_id = e.active_id;
  composition_fees_x = nat_to_text e.composition_fees_x;
  composition_fees_x_native = v.composition_x.native;
  composition_fees_x_usd = v.composition_x.usd;
  composition_fees_y = nat_to_text e.composition_fees_y;
  composition_fees_y_native = v.composition_y.native;
  composition_fees_y_usd = v.composition_y.usd;
  protocol_fees_x = nat_to_text e.protocol_fees_x;
  protocol_fees_x_native = v.protocol_x.native;
  protocol_fees_x_usd = v.protocol_x.usd;
  protocol_fees_y = nat_to_text e.protocol_fees_y;
  protocol_fees_y_native = v.protocol_y.native;
  protocol_fees_y_usd = v.protocol_y.usd;
  block_number = m.block_number;
  signature = m.signature;
  index = m.instruction_index;
  inner_index = m.inner_instruction_index;
  block_time = block_date m.block_time;
}

-- `text || '0'`
abbrev pub or_nought : Text → Text
or_nought [] = codes "0"
or_nought (c ∷ s) = c ∷ s

module _ (n : Numbers) where
  -- `none` is the RangeError of a product that is not finite.
  unfoldable pub valued_fees :
      CompositionFeesEventDecoded → TokenMint → TokenMint → Option ValuedFees
  valued_fees e mint_x mint_y =
      valued n (normalize_amount e.composition_fees_x mint_x.decimals) unit_price >>=? λ cx.
      valued n (normalize_amount e.composition_fees_y mint_y.decimals) unit_price >>=? λ cy.
      valued n (normalize_amount e.protocol_fees_x mint_x.decimals) unit_price >>=? λ px.
      valued n (normalize_amount e.protocol_fees_y mint_y.decimals) unit_price >>=? λ py.
      some (record { composition_x = cx; composition_y = cy; protocol_x = px; protocol_y = py })

  -- `(parseFloat(current || '0') + fees).toString()`: `+` between a number and a `BN`, which is an object,
  -- joins their texts.
  unfoldable pub new_protocol_fees : Text → ℕ → Text
  new_protocol_fees current fees =
      n.to_string (n.parse_float (or_nought current)) ++ nat_to_text fees

  unfoldable pub set_protocol_fees : CompositionFeesEventDecoded → Pair → Pair → Pair
  unfolding new_protocol_fees
  set_protocol_fees e read p = record p {
    active_id = e.active_id;
    protocol_fees_x = new_protocol_fees read.protocol_fees_x e.protocol_fees_x;
    protocol_fees_y = new_protocol_fees read.protocol_fees_y e.protocol_fees_y;
  }

  module _ {db : Db} (m : ParsedInstructionMessage) where
    unfoldable pub store_event :
        World db → Option (db.composition_fees_events.State) → Result ⊤ × World db
    store_event w none = (err duplicate_key, w)
    store_event w (some s) = (ok tt, record w { composition_fees_events = s })

    unfoldable pub create_event : CompositionFeesEvent → Action db ⊤
    unfolding store_event
    create_event e w = store_event w (db.composition_fees_events.create e w.composition_fees_events)

    unfoldable pub record_fees : CompositionFeesEventDecoded → Pair → Action db ⊤
    unfolding create_event checked_price set_protocol_fees
    record_fees e pair = do
      found_x ← gets (λ w. db.token_mints.find_one pair.token_mint_x_id w.token_mints)
      found_y ← gets (λ w. db.token_mints.find_one pair.token_mint_y_id w.token_mints)
      token_mint_x ← or_throw found_x no_token_mint
      token_mint_y ← or_throw found_y no_token_mint
      (λ w. (checked_price (get_price_from_id pair.bin_step e.active_id), w))
      fees ← or_throw (valued_fees e token_mint_x token_mint_y) range_error
      create_event (new_composition_fees_event m e pair fees)
      modify
          (λ w. record w { pairs = db.pairs.update_one e.pair (set_protocol_fees e pair) w.pairs })

    unfoldable pub after_check : CompositionFeesEventDecoded → Check → Action db ⊤
    unfolding record_fees
    after_check e already_processed = pure tt
    after_check e (inserted i) = do
      found ← gets (λ w. db.pairs.find_one e.pair w.pairs)
      pair ← or_throw found no_pair
      record_fees e pair

    unfoldable pub process_composition_fees_event : CompositionFeesEventDecoded → Action db ⊤
    unfolding after_check checked_message
    process_composition_fees_event e = do
      check ← check_and_insert_instruction (checked_message m) composition_fees
      after_check e check

    module _ (bs58_decode : Text → Option (List ℕ))
        (coder : List ℕ → Option CompositionFeesEventDecoded) where
      unfoldable pub process_decoded : Option (Option CompositionFeesEventDecoded) → Action db ⊤
      unfolding process_composition_fees_event
      process_decoded none = throw decode_failed
      process_decoded (some none) = pure tt
      process_decoded (some (some e)) = process_composition_fees_event e

      unfoldable pub after_discriminator : Option (List ℕ × List ℕ) → Action db ⊤
      unfolding process_decoded
      after_discriminator none = throw range_error
      after_discriminator (some (discriminator, event_data)) =
          if eq_text discriminator composition_fees_event_discriminator
          then process_decoded (decode_type coder (codes "CompositionFeesEvent") event_data)
          else pure tt

      unfoldable pub after_identifier : Option (List ℕ × List ℕ) → Action db ⊤
      unfolding after_discriminator
      after_identifier none = throw range_error
      after_identifier (some (identifier, rest)) =
          if eq_text identifier event_identifier
          then after_discriminator (split_at rest 8)
          else pure tt

      unfoldable pub process : Action db ⊤
      unfolding after_identifier
      process w = elim (bs58_decode m.instruction.data_base58) [
        | none ↦ throw decode_failed w
        | some bytes ↦ after_identifier (split_at bytes 8) w
      ]
