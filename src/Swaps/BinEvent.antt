-- ===== src/Swaps/BinEvent.antt =====
-- `processBinSwapEvent` of swap.processor.ts: the reserves of a bin move, and an event is stored with the
-- vaults of its swap.
pub mod Stored
use saros_dlmm_indexer.Base.{⊤, ℕ, ◌*◌, Bool, Option, none, some, List, [], ◌∷◌, if◌then◌else◌}
use saros_dlmm_indexer.Base.Int.{ℤ, pos, negsuc, neg}
use saros_dlmm_indexer.Text.{Text, codes}
use saros_dlmm_indexer.Text.Decimal.{nat_to_text, int_to_text}
use saros_dlmm_indexer.Schemas.{
  Bin, Pair, TokenMint, SwapEvent, BinSwapEvent, ParsedInstructionMessage,
}
use saros_dlmm_indexer.Store.World.{
  Db, World, Action, Result, ok, err, ◌>>=◌, ◌>>◌, pure, throw, or_throw, gets, modify,
  duplicate_key, no_pair, no_bin, no_token_mint, range_error, decode_failed, invalid_bin_step,
}
use saros_dlmm_indexer.Library.{decode_type}
use saros_dlmm_indexer.Instruction.{
  swap, Check, already_processed, inserted, check_and_insert_instruction,
}
use saros_dlmm_indexer.Positions.Update.{bin_id}
use saros_dlmm_indexer.Prices.{
  Price, price, division_by_zero, out_of_fuel, get_price_from_id, scale,
}
use saros_dlmm_indexer.Prices
use saros_dlmm_indexer.Prices.Floats.{Numbers, add}
use saros_dlmm_indexer.Swaps.{BinSwapEventDecoded, Vaults, get_swap_event_id, get_bin_swap_event_id}
use saros_dlmm_indexer.Swaps.Amounts.{TokenPrice, SwapAmounts, calculate_swap_amounts}

-- What `decodeType` gives for the event: a throw, or null, or the event.
unfoldable pub decode_bin_swap_event :
    (List ℕ → Option BinSwapEventDecoded) → List ℕ → Option (Option BinSwapEventDecoded)
decode_bin_swap_event coder = decode_type coder (codes "BinSwapEvent")

-- `'1.0'` for each token
abbrev pub unit_price : TokenPrice
unit_price = record { usd = codes "1.0"; native = codes "1.0" }

-- `innerInstructionIndex ?? -1`
abbrev pub inner_or_minus_one : Option ℕ → ℤ
inner_or_minus_one none = negsuc 0
inner_or_minus_one (some i) = pos i

-- `new Date((blockTime ?? Date.now()) * 1000)`, with the milliseconds of `Date.now()`.
abbrev pub date_of : Option ℕ → ℕ → ℕ
date_of none now = now * 1000
date_of (some t) now = t * 1000

unfoldable pub vaults_of_event : Bool → Option SwapEvent → Vaults
vaults_of_event swap_for_y none = record {
  user_in = codes "dummy_user_vault_in";
  user_out = codes "dummy_user_vault_out";
  pair_in = codes "dummy_pair_vault_in";
  pair_out = codes "dummy_pair_vault_out";
}
vaults_of_event swap_for_y (some s) =
    if swap_for_y
    then record {
      user_in = s.user_vault_x;
      user_out = s.user_vault_y;
      pair_in = s.token_vault_x;
      pair_out = s.token_vault_y;
    }
    else record {
      user_in = s.user_vault_y;
      user_out = s.user_vault_x;
      pair_in = s.token_vault_y;
      pair_out = s.token_vault_x;
    }

-- `binSwapEventData`
unfoldable pub new_bin_swap_event :
    ParsedInstructionMessage → BinSwapEventDecoded → Vaults → SwapAmounts → ℕ → BinSwapEvent
new_bin_swap_event m e v a now = record {
  id =
      get_bin_swap_event_id m.block_number m.signature m.instruction_index m.inner_instruction_index
        (bin_id e.pair e.bin_id);
  pair_id = e.pair;
  bin_id = bin_id e.pair e.bin_id;
  lb_bin_id = e.bin_id;
  user_vault_in = v.user_in;
  user_vault_out = v.user_out;
  pair_vault_in = v.pair_in;
  pair_vault_out = v.pair_out;
  swap_for_y = e.swap_for_y;
  amount_in = a.amount_in.normalized;
  amount_in_native = a.amount_in.native;
  amount_in_usd = a.amount_in.usd;
  amount_out = a.amount_out.normalized;
  amount_out_native = a.amount_out.native;
  amount_out_usd = a.amount_out.usd;
  fees = a.fee.normalized;
  fees_native = a.fee.native;
  fees_usd = a.fee.usd;
  protocol_fees = a.protocol_fee.normalized;
  protocol_fees_native = a.protocol_fee.native;
  protocol_fees_usd = a.protocol_fee.usd;
  volatility_accumulator = e.volatility_accumulator;
  block_number = m.block_number;
  signature = m.signature;
  index = m.instruction_index;
  inner_index = inner_or_minus_one m.inner_instruction_index;
  block_time = date_of m.block_time now;
}

-- The price is computed for its errors alone; nothing that is stored depends on it.
unfoldable pub checked_price : Price → Result ⊤
checked_price Prices.invalid_bin_step = err invalid_bin_step
checked_price division_by_zero = err range_error
checked_price out_of_fuel = err range_error
checked_price (price p) = ok tt

module _ (n : Numbers) where
  -- `(decoded.amount_in - decoded.protocol_fee).toString()`: the two are converted to numbers.
  unfoldable pub amount_kept : BinSwapEventDecoded → Text
  amount_kept e =
      n.to_string
        (n.minus (n.of_text (nat_to_text e.amount_in)) (n.of_text (nat_to_text e.protocol_fee)))

  -- `(-BigInt(decoded.amount_out)).toString()`
  unfoldable pub amount_paid : BinSwapEventDecoded → Text
  amount_paid e = int_to_text (neg (pos e.amount_out))

  unfoldable pub update_x : BinSwapEventDecoded → Text
  unfolding amount_kept amount_paid
  update_x e = if e.swap_for_y then amount_kept e else amount_paid e

  unfoldable pub update_y : BinSwapEventDecoded → Text
  unfolding amount_kept amount_paid
  update_y e = if e.swap_for_y then amount_paid e else amount_kept e

  module _ {db : Db} (m : ParsedInstructionMessage) (now : ℕ) where
    unfoldable pub update_reserves : BinSwapEventDecoded → Bin → Action db ⊤
    unfolding update_x update_y
    update_reserves e bin = do
      new_reserve_x ← or_throw (add n bin.reserve_x (update_x e)) range_error
      new_reserve_y ← or_throw (add n bin.reserve_y (update_y e)) range_error
      modify (λ w. record w {
        bins =
            db.bins.update_one (bin_id e.pair e.bin_id)
              (λ b. record b { reserve_x = new_reserve_x; reserve_y = new_reserve_y }) w.bins;
      })

    unfoldable pub store_bin_swap_event :
        World db → Option (db.bin_swap_events.State) → Result ⊤ × World db
    store_bin_swap_event w none = (err duplicate_key, w)
    store_bin_swap_event w (some s) = (ok tt, record w { bin_swap_events = s })

    unfoldable pub create_bin_swap_event : BinSwapEvent → Action db ⊤
    unfolding store_bin_swap_event
    create_bin_swap_event e w =
        store_bin_swap_event w (db.bin_swap_events.create e w.bin_swap_events)

    unfoldable pub record_event : BinSwapEventDecoded → Pair → Action db ⊤
    unfolding create_bin_swap_event checked_price
    record_event e pair = do
      (λ w. (checked_price (get_price_from_id pair.bin_step e.bin_id), w))
      found_x ← gets (λ w. db.token_mints.find_one pair.token_mint_x_id w.token_mints)
      found_y ← gets (λ w. db.token_mints.find_one pair.token_mint_y_id w.token_mints)
      token_mint_x ← or_throw found_x no_token_mint
      token_mint_y ← or_throw found_y no_token_mint
      swap_event ← gets (λ w.
          db.swap_events.find_one
            (get_swap_event_id m.block_number m.signature m.instruction_index none) w.swap_events)
      amounts ←
          or_throw (calculate_swap_amounts n e token_mint_x token_mint_y unit_price unit_price)
            range_error
      create_bin_swap_event
          (new_bin_swap_event m e (vaults_of_event e.swap_for_y swap_event) amounts now)

    unfoldable pub process_decoded : BinSwapEventDecoded → Action db ⊤
    unfolding update_reserves record_event
    process_decoded e = do
      found_pair ← gets (λ w. db.pairs.find_one e.pair w.pairs)
      pair ← or_throw found_pair no_pair
      found_bin ← gets (λ w. db.bins.find_one (bin_id e.pair e.bin_id) w.bins)
      bin ← or_throw found_bin no_bin
      update_reserves e bin
      record_event e pair

    unfoldable pub after_decoding : Option (Option BinSwapEventDecoded) → Action db ⊤
    unfolding process_decoded
    after_decoding none = throw decode_failed
    after_decoding (some none) = pure tt
    after_decoding (some (some e)) = process_decoded e

    unfoldable pub after_check : Option (Option BinSwapEventDecoded) → Check → Action db ⊤
    unfolding after_decoding
    after_check decoded already_processed = pure tt
    after_check decoded (inserted i) = after_decoding decoded

    -- The bytes are decoded behind the check, which the decoded event does not depend on.
    unfoldable pub process_bin_swap_event :
        (List ℕ → Option BinSwapEventDecoded) → List ℕ → Action db ⊤
    unfolding after_check decode_bin_swap_event
    process_bin_swap_event coder event_data = do
      check ← check_and_insert_instruction m swap
      after_check (decode_bin_swap_event coder event_data) check
