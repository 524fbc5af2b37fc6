-- ===== src/Positions/Update.antt =====
-- The loop that increase-position.processor.ts and decrease-position.processor.ts share line by
-- line: for each bin of an event it writes the liquidity share, the bin and an update event, and
-- adds up the amounts. `op` is the `+` or `-` of the processor, and `delta` the sign of its events.
pub mod Steps
pub mod Ids
pub mod Effect
pub mod Loop
pub mod Events
pub mod Total
pub mod Keeps
pub mod Throws
use saros_dlmm_indexer.Base.{
  ⊤, ℕ, suc, ◌-◌, ◌*◌, Bool, Option, none, some, zero, List, [], ◌∷◌, ltb, leb, ◌||◌, if◌then◌else◌,
}
use saros_dlmm_indexer.Base.Int.{ℤ, pos, ◌+ℤ◌}
use saros_dlmm_indexer.Text.{Text}
use saros_dlmm_indexer.Text.Decimal.{nat_to_text, int_to_text, read_int}
use saros_dlmm_indexer.Text.Join.{join}
use saros_dlmm_indexer.Schemas.{
  Bin, Position, LiquidityShares, PositionUpdateEvent, Pair, ParsedInstructionMessage,
}
use saros_dlmm_indexer.Store.World.{
  Db, World, Action, Result, ok, err, ◌>>=◌, ◌>>◌, pure, throw, throw_if, or_throw, lift, gets,
  modify, duplicate_key, syntax_error, no_share, no_bin, share_out_of_bounds,
}

-- `BIN_PER_POSITION`
abbrev pub bin_per_position : ℕ
bin_per_position = 64

unfoldable pub share_id : Text → ℕ → Text
share_id position index = join position (nat_to_text index)

unfoldable pub bin_id : Text → ℕ → Text
bin_id pair lb_bin_id = join pair (nat_to_text lb_bin_id)

-- An event's arrays are read by index, as operands of a BigInt operation, which may throw.
pub record BinChanges : Type 0 where
  pub pair : Text
  pub position : Text
  pub bin_ids : List ℕ
  pub amount_x : ℕ → Result ℤ
  pub amount_y : ℕ → Result ℤ
  pub liquidity : ℕ → Result ℤ

-- `blockTime ? new Date(blockTime * 1000) : new Date()`
abbrev pub date_or_now : Option ℕ → ℕ → ℕ
date_or_now none now = now
date_or_now (some zero) now = now
date_or_now (some (suc t)) now = suc t * 1000

-- The event that a pass creates, of amounts whose sign `delta` gives.
unfoldable pub update_event :
    (ℤ → ℤ)
    → BinChanges
    → ParsedInstructionMessage
    → Text
    → (ℕ → ℕ)
    → ℕ
    → ℕ
    → ℤ
    → ℤ
    → ℤ
    → PositionUpdateEvent
update_event delta c m instruction_id now index lb_bin_id ax ay l = record {
  id = join instruction_id (nat_to_text lb_bin_id);
  signature = m.signature;
  pair_id = c.pair;
  position_id = c.position;
  bin_id = bin_id c.pair lb_bin_id;
  lb_bin_id = lb_bin_id;
  delta_liquidity_balance = int_to_text (delta l);
  delta_amount_x = int_to_text (delta ax);
  delta_amount_y = int_to_text (delta ay);
  index = m.instruction_index;
  inner_index = m.inner_instruction_index;
  block_number = m.block_number;
  block_time = date_or_now m.block_time (now index);
}

module _ {db : Db} where
  -- `BigInt(text)`
  abbrev pub big_int : Text → Action db ℤ
  big_int t = or_throw (read_int t) syntax_error

  unfoldable pub store_event : World db → Option (db.update_events.State) → Result ⊤ × World db
  store_event w none = (err duplicate_key, w)
  store_event w (some s) = (ok tt, record w { update_events = s })

  unfoldable pub create_event : PositionUpdateEvent → Action db ⊤
  unfolding store_event
  create_event d w = store_event w (db.update_events.create d w.update_events)

module _ {db : Db} (op : ℤ → ℤ → ℤ) (delta : ℤ → ℤ) where
  unfoldable pub update_share : Text → Result ℤ → Action db ⊤
  update_share id liquidity = do
    found ← gets (λ w. db.shares.find_one id w.shares)
    share ← or_throw found no_share
    balance ← big_int share.balance
    l ← lift liquidity
    modify (λ w. record w {
      shares =
          db.shares.update_one id (λ s. record s { balance = int_to_text (op balance l) }) w.shares;
    })

  unfoldable pub update_bin : Text → Result ℤ → Result ℤ → Result ℤ → Action db ⊤
  update_bin id amount_x amount_y liquidity = do
    found ← gets (λ w. db.bins.find_one id w.bins)
    bin ← or_throw found no_bin
    x ← big_int bin.reserve_x
    ax ← lift amount_x
    y ← big_int bin.reserve_y
    ay ← lift amount_y
    s ← big_int bin.total_supply
    l ← lift liquidity
    modify (λ w. record w {
      bins =
          db.bins.update_one id
            (λ b. record b {
              reserve_x = int_to_text (op x ax);
              reserve_y = int_to_text (op y ay);
              total_supply = int_to_text (op s l);
            })
            w.bins;
    })

  module _ (c : BinChanges) (m : ParsedInstructionMessage) (instruction_id : Text)
      (lower_bin_id : ℕ) (now : ℕ → ℕ) where
    unfoldable pub check_share_index : ℕ → Action db ⊤
    check_share_index lb_bin_id =
        throw_if (ltb lb_bin_id lower_bin_id || leb bin_per_position (lb_bin_id - lower_bin_id))
          share_out_of_bounds

    -- The end of a pass: the totals, and the event, which the operands of `update_bin` name again.
    unfoldable pub record_change : ℕ → ℕ → ℤ × ℤ → Action db (ℤ × ℤ)
    unfolding create_event update_event
    record_change index lb_bin_id (total_x, total_y) = do
      ax ← lift (c.amount_x index)
      ay ← lift (c.amount_y index)
      l ← lift (c.liquidity index)
      create_event (update_event delta c m instruction_id now index lb_bin_id ax ay l)
      pure (total_x +ℤ ax, total_y +ℤ ay)

    unfoldable pub process_bin : ℕ → ℕ → ℤ × ℤ → Action db (ℤ × ℤ)
    unfolding check_share_index update_share update_bin record_change
    process_bin index lb_bin_id totals = do
      check_share_index lb_bin_id
      update_share (share_id c.position (lb_bin_id - lower_bin_id)) (c.liquidity index)
      update_bin (bin_id c.pair lb_bin_id) (c.amount_x index) (c.amount_y index) (c.liquidity index)
      record_change index lb_bin_id totals

    unfoldable pub process_bins : ℕ → List ℕ → ℤ × ℤ → Action db (ℤ × ℤ)
    unfolding process_bin
    process_bins index [] totals = pure totals
    process_bins index (lb_bin_id ∷ ids) totals = do
      totals' ← process_bin index lb_bin_id totals
      process_bins (suc index) ids totals'
